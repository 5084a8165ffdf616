-- ===== src/Codec/Ulaw/Decoder.antt =====
-- The decoding table of codec/ulaw.rs against the G.191 formula.
use tedium.Common.{
  ℕ, ◌<◌, ◌≡◌, ◌≢◌, refl, Bool, true, false, all_below, all_below_sound, Option, none, some, ◌==◌,
  ◌/◌, ◌+◌, ◌-◌, arith, subst, dec_lt,
}
use tedium.Common.Int.{ℤ, pos, negsuc, neg_ℕ}
use tedium.Codec.Ulaw.{decode_i16, decode_ulaw_g191, encode_i14, encode_clamped, clamp}

abbrev same_sample : ℤ → ℤ → Bool
same_sample (pos a) (pos b) = a == b
same_sample (negsuc a) (negsuc b) = a == b
same_sample _ _ = false

same_sample-eq : (a b : ℤ) → same_sample a b ≡ true → a ≡ b
same_sample-eq a b h = ground arith

abbrev both : Option ℤ → Option ℤ → Bool
both (some a) (some b) = same_sample a b
both _ _ = false

both-eq : (o p : Option ℤ) → both o p ≡ true → (v : ℤ) × (o ≡ some v) × (p ≡ some v)
both-eq (some a) (some b) h = (a, refl, ground (arith, same_sample-eq a b h))
both-eq (some a) none h = absurd (ground arith)
both-eq none p h = absurd (ground arith)

decode_table : all_below 256 (λ c. both (decode_i16 c) (decode_ulaw_g191 c)) ≡ true
unfolding all_below decode_i16 decode_ulaw_g191
decode_table = refl

-- The table decodes every byte, and to the sample that the G.191 formula computes without
-- an overflow.
pub decode_i16-decode_ulaw_g191 :
    (code : ℕ)
    → code < 256
    → (v : ℤ) × (decode_i16 code ≡ some v) × (decode_ulaw_g191 code ≡ some v)
decode_i16-decode_ulaw_g191 code h =
    both-eq (decode_i16 code) (decode_ulaw_g191 code) (all_below_sound 256 _ code decode_table h)

-- `v / 4` on `i16`, which rounds towards zero.
pub quarter : ℤ → ℤ
quarter (pos n) = pos (n / 4)
quarter (negsuc n) = neg_ℕ ((n + 1) / 4)

abbrev encodes_to : ℕ → Option ℕ → Bool
encodes_to c (some d) = c == d
encodes_to c none = false

abbrev recoded : ℕ → Option ℤ → Bool
recoded c (some v) = encodes_to c (encode_i14 (quarter v))
recoded c none = false

encodes_to-eq : (c : ℕ) (o : Option ℕ) → encodes_to c o ≡ true → o ≡ some c
encodes_to-eq c o h = ground arith

abbrev Recoded : ℕ → Option ℤ → Type 0
Recoded c o = (v : ℤ) × (o ≡ some v) × (encode_i14 (quarter v) ≡ some c)

recoded-eq : (c : ℕ) (o : Option ℤ) → recoded c o ≡ true → Recoded c o
recoded-eq c (some v) h = (v, refl, encodes_to-eq c _ h)
recoded-eq c none h = absurd (ground arith)

low_codes : all_below 127 (λ c. recoded c (decode_i16 c)) ≡ true
unfolding all_below decode_i16 encode_i14 encode_clamped clamp quarter
low_codes = refl

high_codes : all_below 128 (λ c. recoded (128 + c) (decode_i16 (128 + c))) ≡ true
unfolding all_below decode_i16 encode_i14 encode_clamped clamp quarter
high_codes = refl

-- Every byte but 0x7f, the second zero, decodes to a sample that encodes back to that byte.
pub encode_i14-decode_i16 :
    (code : ℕ)
    → code < 256
    → code ≢ 127
    → (v : ℤ) × (decode_i16 code ≡ some v) × (encode_i14 (quarter v) ≡ some code)
encode_i14-decode_i16 code h ne = elim (dec_lt code 127) [
  | yes low ↦ recoded-eq code (decode_i16 code) (all_below_sound 127 _ code low_codes low)
  | no high ↦
      let back : 128 + (code - 128) ≡ code = omega arith in
      subst (λ c. Recoded c (decode_i16 c)) back
        (recoded-eq _ _ (all_below_sound 128 _ (code - 128) high_codes (omega arith)))
]
