-- ===== src/Codec/Ulaw/Sample.antt =====
-- The codec on floating-point samples (`encode` and `decode` of
-- tedium/tools/tedium-tool/src/codec/ulaw.rs).
use tedium.Common.{ℕ, ◌≡◌, ◌∙◌, Option, some, ◌>>=◌, arith}
use native.Mathlib.Decide.{dec_le}
use tedium.Common.Int.{ℤ, pos, negsuc}
use tedium.Float.{Float}
use tedium.Codec.Ulaw.{encode_i14, decode_i16}
use tedium.Codec.Ulaw.Encoder.{encode_i14-encode_ulaw_g191, encode_i14_above, encode_i14_below}

module _ (fl : Float) where
  open fl use {F, lit, mul, div, round, of_int, to_i16}

  scale_ulaw_float : F
  scale_ulaw_float = lit (pos 8159) 1

  pub encode : F → Option ℕ
  unfolding scale_ulaw_float
  encode linear =
      let clamped = fl.clamp linear (lit (negsuc 0) 1) (lit (pos 1) 1) in
      encode_i14 (to_i16 (round (mul clamped scale_ulaw_float)))

  unfoldable pub decode : ℕ → Option F
  unfolding scale_ulaw_float
  decode code = do
    linear ← decode_i16 code
    some (div (of_int linear) (mul scale_ulaw_float (lit (pos 4) 1)))

-- Every sample has a code: no assertion of the encoder fails.
pub encode_i14-total : (l : ℤ) → (code : ℕ) × (encode_i14 l ≡ some code)
encode_i14-total (pos n) = elim (dec_le 8031 n) [
  | yes p ↦
      let (code, e, _) = encode_i14-encode_ulaw_g191 (pos 8031) (omega arith) (omega arith) in
      (code, encode_i14_above n p ∙ e)
  | no q ↦
      let (code, e, _) = encode_i14-encode_ulaw_g191 (pos n) (omega arith) (omega arith) in
      (code, e)
]
encode_i14-total (negsuc n) = elim (dec_le 8030 n) [
  | yes p ↦
      let (code, e, _) = encode_i14-encode_ulaw_g191 (negsuc 8030) (omega arith) (omega arith) in
      (code, encode_i14_below n p ∙ e)
  | no q ↦
      let (code, e, _) = encode_i14-encode_ulaw_g191 (negsuc n) (omega arith) (omega arith) in
      (code, e)
]

module _ (fl : Float) where
  pub encode-total : (linear : fl.F) → (code : ℕ) × (encode fl linear ≡ some code)
  unfolding encode
  encode-total linear = encode_i14-total _
