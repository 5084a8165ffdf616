-- ===== src/Codec/Ulaw/Encoder.antt =====
-- The encoder of codec/ulaw.rs against the G.191 routine and the decoder.
use tedium.Common.{
  ℕ, ◌≤◌, ◌≡◌, refl, Bool, true, all_below, all_below_sound, Option, none, some, ◌==◌, ◌+◌, ◌*◌,
  false, ap, arith,
}
use tedium.Common.Int.{ℤ, pos, negsuc, ◌≤ℤ◌}
use tedium.Codec.Ulaw.{encode_i14, encode_clamped, clamp, encode_ulaw_g191}

-- `4 * l`: a 14-bit sample moved to the top of an `i16`.
unfoldable pub left_justify : ℤ → ℤ
left_justify (pos n) = pos (4 * n)
left_justify (negsuc n) = negsuc (4 * n + 3)

abbrev same_code : Option ℕ → Option ℕ → Bool
same_code (some a) (some b) = a == b
same_code _ _ = false

same_code-eq : (o p : Option ℕ) → same_code o p ≡ true → (c : ℕ) × (o ≡ some c) × (p ≡ some c)
same_code-eq (some a) (some b) h = (a, refl, ground arith)
same_code-eq (some a) none h = absurd (ground arith)
same_code-eq none p h = absurd (ground arith)

positive_table :
    all_below 8192 (λ n. same_code (encode_i14 (pos n)) (encode_ulaw_g191 (left_justify (pos n))))
    ≡ true
unfolding all_below encode_i14 encode_clamped clamp encode_ulaw_g191 left_justify
positive_table = refl

negative_table :
    all_below 8192
      (λ n. same_code (encode_i14 (negsuc n)) (encode_ulaw_g191 (left_justify (negsuc n))))
    ≡ true
unfolding all_below encode_i14 encode_clamped clamp encode_ulaw_g191 left_justify
negative_table = refl

-- On every 14-bit sample the encoder passes its assertions and returns the code that the
-- G.191 routine computes for the same sample at the top of an `i16`.
pub encode_i14-encode_ulaw_g191 :
    (l : ℤ)
    → negsuc 8191 ≤ℤ l
    → l ≤ℤ pos 8191
    → (code : ℕ) × (encode_i14 l ≡ some code) × (encode_ulaw_g191 (left_justify l) ≡ some code)
encode_i14-encode_ulaw_g191 (pos n) lo hi =
    same_code-eq _ _ (all_below_sound 8192 _ n positive_table (omega arith))
encode_i14-encode_ulaw_g191 (negsuc n) lo hi =
    same_code-eq _ _ (all_below_sound 8192 _ n negative_table (omega arith))

clamp_above : (n : ℕ) → 8031 ≤ n → clamp (negsuc 8030) (pos 8031) (pos n) ≡ pos 8031
unfolding clamp
clamp_above n h = ground arith

clamp_below : (n : ℕ) → 8030 ≤ n → clamp (negsuc 8030) (pos 8031) (negsuc n) ≡ negsuc 8030
unfolding clamp
clamp_below n h = ground arith

-- Beyond the clamp every sample has the code of the largest one of its sign.
pub encode_i14_above : (n : ℕ) → 8031 ≤ n → encode_i14 (pos n) ≡ encode_i14 (pos 8031)
unfolding encode_i14 clamp
encode_i14_above n h = ap encode_clamped (clamp_above n h)

pub encode_i14_below : (n : ℕ) → 8030 ≤ n → encode_i14 (negsuc n) ≡ encode_i14 (negsuc 8030)
unfolding encode_i14 clamp
encode_i14_below n h = ap encode_clamped (clamp_below n h)
