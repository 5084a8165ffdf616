-- ===== src/Codec/Ulaw/Tests.antt =====
-- Pairs from the tests of codec/ulaw.rs, and the theorems at concrete inputs.
use tedium.Common.{ℕ, ◌≡◌, refl, some, arith}
use tedium.Common.Int.{ℤ, pos, negsuc}
use tedium.Codec.Ulaw.{
  decode_i16, decode_ulaw_g191, encode_i14, encode_clamped, clamp, encode_ulaw_g191,
}
use tedium.Codec.Ulaw.Decoder.{quarter, decode_i16-decode_ulaw_g191, encode_i14-decode_i16}
use tedium.Codec.Ulaw.Encoder.{left_justify, encode_i14-encode_ulaw_g191}
use tedium.Codec.Ulaw.Quantize.{
  Quantized, encode_i14-Quantized, Ordered, requantize, requantize_mono,
}

encoder_pairs :
    (encode_i14 (pos 7902) ≡ some 0b1000_0001)
    × (encode_i14 (pos 33) ≡ some 0b1110_1111)
    × (encode_i14 (negsuc 0) ≡ some 0b0111_1111)
    × (encode_i14 (negsuc 8190) ≡ some 0)
unfolding encode_i14 encode_clamped clamp
encoder_pairs = (refl, refl, refl, refl)

decode_i16-decode_ulaw_g191_example :
    (v : ℤ) × (decode_i16 0x8f ≡ some v) × (decode_ulaw_g191 0x8f ≡ some v)
decode_i16-decode_ulaw_g191_example = decode_i16-decode_ulaw_g191 0x8f (omega arith)

encode_i14-decode_i16_example :
    (v : ℤ) × (decode_i16 0x12 ≡ some v) × (encode_i14 (quarter v) ≡ some 0x12)
encode_i14-decode_i16_example = encode_i14-decode_i16 0x12 (omega arith) (omega arith)

encode_i14-encode_ulaw_g191_example :
    (code : ℕ) × (encode_i14 (negsuc 102) ≡ some code)
    × (encode_ulaw_g191 (left_justify (negsuc 102)) ≡ some code)
encode_i14-encode_ulaw_g191_example =
    encode_i14-encode_ulaw_g191 (negsuc 102) (omega arith) (omega arith)

encode_i14-Quantized_example : Quantized (pos 5000) (encode_i14 (pos 5000))
encode_i14-Quantized_example = encode_i14-Quantized (pos 5000) (omega arith) (omega arith)

requantize_mono_example : Ordered (requantize (negsuc 40)) (requantize (pos 9000))
requantize_mono_example = requantize_mono (negsuc 40) (pos 9000) (omega arith)
