-- ===== src/Codec/Ulaw/Quantize.antt =====
-- What encoding loses: the error of `decode(encode(l))`, and its order.
use tedium.Common.{
  ℕ, zero, suc, ◌+◌, ◌-◌, ◌*◌, ◌/◌, ◌%◌, ◌^◌, ◌≤◌, ◌≡◌, refl, Bool, true, false, all_below,
  all_below_sound, Option, none, some, ◌&&◌, leb, bit_xor, arith, ◌>>=◌, dec_lt, subst, ap,
}
use tedium.Common.Int.{ℤ, pos, negsuc, neg_part, pos_part, le_ℤ, ◌≤ℤ◌}
use tedium.Codec.Ulaw.{decode_i16, encode_i14, encode_clamped, clamp}
use tedium.Codec.Ulaw.Encoder.{left_justify, encode_i14_above, encode_i14_below}

-- Half the distance of two neighbouring samples in the segment of a code.
pub half_step : ℕ → ℕ
half_step code = 4 * 2 ^ (bit_xor code 0xff / 16 % 8)

-- |a - b| ≤ q
abbrev pub Near : ℕ → ℤ → ℤ → Type 0
Near q a b =
    (pos_part a + neg_part b ≤ pos_part b + neg_part a + q)
    × (pos_part b + neg_part a ≤ pos_part a + neg_part b + q)

abbrev near : ℕ → ℤ → ℤ → Bool
near q a b =
    leb (pos_part a + neg_part b) (pos_part b + neg_part a + q)
    && leb (pos_part b + neg_part a) (pos_part a + neg_part b + q)

near-Near : (q : ℕ) (a b : ℤ) → near q a b ≡ true → Near q a b
near-Near q a b h = ground arith

abbrev near_value : ℤ → ℕ → Option ℤ → Bool
near_value l code (some v) = near (half_step code) (left_justify l) v
near_value l code none = false

abbrev near_code : ℤ → Option ℕ → Bool
near_code l (some code) = near_value l code (decode_i16 code)
near_code l none = false

-- The sample `l` is encoded, and decoded to a value within half a step.
abbrev pub Quantized : ℤ → Option ℕ → Type 0
Quantized l o =
    (code : ℕ) × (v : ℤ) × (o ≡ some code)
    × (decode_i16 code ≡ some v)
    × Near (half_step code) (left_justify l) v

near_value-eq :
    (l : ℤ) (code : ℕ) (o : Option ℤ)
    → near_value l code o ≡ true
    → (v : ℤ) × (o ≡ some v) × Near (half_step code) (left_justify l) v
near_value-eq l code (some v) h = (v, refl, near-Near (half_step code) (left_justify l) v h)
near_value-eq l code none h = absurd (ground arith)

near_code-eq : (l : ℤ) (o : Option ℕ) → near_code l o ≡ true → Quantized l o
near_code-eq l (some code) h =
    let (v, e, n) = near_value-eq l code (decode_i16 code) h in (code, v, refl, e, n)
near_code-eq l none h = absurd (ground arith)

positive_errors : all_below 8160 (λ n. near_code (pos n) (encode_i14 (pos n))) ≡ true
unfolding all_below encode_i14 encode_clamped clamp decode_i16 half_step left_justify
positive_errors = refl

negative_errors : all_below 8159 (λ n. near_code (negsuc n) (encode_i14 (negsuc n))) ≡ true
unfolding all_below encode_i14 encode_clamped clamp decode_i16 half_step left_justify
negative_errors = refl

-- A sample of the full scale, from -8159 to 8159, is encoded without an assertion failing, and
-- the code is decoded to within half a quantization step of it.
pub encode_i14-Quantized : (l : ℤ) → negsuc 8158 ≤ℤ l → l ≤ℤ pos 8159 → Quantized l (encode_i14 l)
encode_i14-Quantized (pos n) lo hi =
    near_code-eq _ _ (all_below_sound 8160 _ n positive_errors (omega arith))
encode_i14-Quantized (negsuc n) lo hi =
    near_code-eq _ _ (all_below_sound 8159 _ n negative_errors (omega arith))

-- What a sample becomes on the way through the codec.
pub requantize : ℤ → Option ℤ
requantize l = encode_i14 l >>= decode_i16

abbrev ordered : Option ℤ → Option ℤ → Bool
ordered (some a) (some b) = le_ℤ a b
ordered _ _ = false

-- Both values are there, the first at most the second.
abbrev pub Ordered : Option ℤ → Option ℤ → Type 0
Ordered o p = (a : ℤ) × (b : ℤ) × (o ≡ some a) × (p ≡ some b) × (a ≤ℤ b)

ordered-Ordered : (o p : Option ℤ) → ordered o p ≡ true → Ordered o p
ordered-Ordered (some a) (some b) h = (a, b, refl, refl, ground arith)
ordered-Ordered (some a) none h = absurd (ground arith)
ordered-Ordered none p h = absurd (ground arith)

Ordered-trans : {o p q : Option ℤ} → Ordered o p → Ordered p q → Ordered o q
Ordered-trans (a, b, ea, eb, h) (c, d, ec, ed, k) = (a, d, ea, ed, ground arith)

rising_table : all_below 8031 (λ n. ordered (requantize (pos n)) (requantize (pos (suc n)))) ≡ true
unfolding all_below requantize encode_i14 encode_clamped clamp decode_i16
rising_table = refl

falling_table :
    all_below 8031 (λ n. ordered (requantize (negsuc (suc n))) (requantize (negsuc n))) ≡ true
unfolding all_below requantize encode_i14 encode_clamped clamp decode_i16
falling_table = refl

top : Ordered (requantize (pos 8031)) (requantize (pos 8031))
unfolding requantize encode_i14 encode_clamped clamp decode_i16
top = ordered-Ordered _ _ refl

bottom : Ordered (requantize (negsuc 8030)) (requantize (negsuc 8030))
unfolding requantize encode_i14 encode_clamped clamp decode_i16
bottom = ordered-Ordered _ _ refl

crossing : Ordered (requantize (negsuc 0)) (requantize (pos 0))
unfolding requantize encode_i14 encode_clamped clamp decode_i16
crossing = ordered-Ordered _ _ refl

above : (n : ℕ) → 8031 ≤ n → requantize (pos n) ≡ requantize (pos 8031)
unfolding requantize
above n h = ap (λ o. o >>= decode_i16) (encode_i14_above n h)

below : (n : ℕ) → 8030 ≤ n → requantize (negsuc n) ≡ requantize (negsuc 8030)
unfolding requantize
below n h = ap (λ o. o >>= decode_i16) (encode_i14_below n h)

rises : (n : ℕ) → Ordered (requantize (pos n)) (requantize (pos (suc n)))
rises n = elim (dec_lt n 8031) [
  | yes h ↦ ordered-Ordered _ _ (all_below_sound 8031 _ n rising_table h)
  | no h ↦ rw (above n (omega arith), above (suc n) (omega arith)) top
]

falls : (n : ℕ) → Ordered (requantize (negsuc (suc n))) (requantize (negsuc n))
falls n = elim (dec_lt n 8031) [
  | yes h ↦ ordered-Ordered _ _ (all_below_sound 8031 _ n falling_table h)
  | no h ↦ rw (below n (omega arith), below (suc n) (omega arith)) bottom
]

Ordered-left : {o p : Option ℤ} → Ordered o p → Ordered o o
Ordered-left (a, b, ea, eb, h) = (a, a, ea, ea, omega arith)

Ordered-right : {o p : Option ℤ} → Ordered o p → Ordered p p
Ordered-right (a, b, ea, eb, h) = (b, b, eb, eb, omega arith)

climb : (k m : ℕ) → Ordered (requantize (pos m)) (requantize (pos (k + m)))
climb zero m =
    subst (λ n. Ordered (requantize (pos m)) (requantize (pos n))) (omega arith)
      (Ordered-left (rises m))
climb (suc k) m =
    subst (λ n. Ordered (requantize (pos m)) (requantize (pos n))) (omega arith)
      (Ordered-trans (climb k m) (rises (k + m)))

descend : (k m : ℕ) → Ordered (requantize (negsuc (k + m))) (requantize (negsuc m))
descend zero m =
    subst (λ n. Ordered (requantize (negsuc n)) (requantize (negsuc m))) (omega arith)
      (Ordered-right (falls m))
descend (suc k) m =
    subst (λ n. Ordered (requantize (negsuc n)) (requantize (negsuc m))) (omega arith)
      (Ordered-trans (falls (k + m)) (descend k m))

-- The codec keeps the order of all samples, however large: it encodes and decodes both of two,
-- and a sample that is at most another does not become larger than it.
pub requantize_mono : (l m : ℤ) → l ≤ℤ m → Ordered (requantize l) (requantize m)
requantize_mono (pos a) (pos b) h =
    subst (λ n. Ordered (requantize (pos a)) (requantize (pos n))) (omega arith) (climb (b - a) a)
requantize_mono (negsuc a) (negsuc b) h =
    subst (λ n. Ordered (requantize (negsuc n)) (requantize (negsuc b))) (omega arith)
      (descend (a - b) b)
requantize_mono (negsuc a) (pos b) h =
    Ordered-trans
      (subst (λ n. Ordered (requantize (negsuc n)) (requantize (negsuc 0))) (omega arith)
        (descend a 0))
      (Ordered-trans crossing
        (subst (λ n. Ordered (requantize (pos 0)) (requantize (pos n))) (omega arith) (climb b 0)))
requantize_mono (pos a) (negsuc b) h = absurd (omega arith)
