-- ===== src/Codec/Ulaw.antt =====
-- The mu-law codec (tedium/tools/tedium-tool/src/codec/ulaw.rs): the table-driven decoder, the
-- encoder of 14-bit samples, and the G.191 reference routines that the tests of the file hold
-- them against. An `i16` or `i14` sample is an integer, a `u8` or `u16` a number below its
-- modulus; a failed `debug_assert!` and an arithmetic overflow, which panic, are `none`.
pub mod Decoder
pub mod Encoder
pub mod Quantize
pub mod Sample
mod Tests
use tedium.Common.{
  ℕ, zero, suc, ◌+◌, ◌-◌, ◌*◌, ◌/◌, ◌^◌, ◌%◌, min, bit_and, bit_or, bit_xor, Bool, Option, none,
  some, List, [], ◌∷◌, ◌++◌, map, ltb, leb, ◌==◌, if◌then◌else◌, ◌>>=◌, ◌>>◌, assert, u8, u16,
  get_elem?,
}
use tedium.Common.Int.{ℤ, pos, negsuc, neg_ℕ, le_ℤ}

-- `x as u16` of a signed number, and `x as i16` of a `u16`.
abbrev pub as_u16 : ℤ → ℕ
as_u16 (pos n) = u16 n
as_u16 (negsuc n) = 65535 - u16 n

abbrev pub as_i16 : ℕ → ℤ
as_i16 n = if ltb n 32768 then pos n else negsuc (65535 - n)

-- `a + b` on `u16` and `a - b` on an unsigned type.
abbrev pub add_u16 : ℕ → ℕ → Option ℕ
add_u16 a b = if ltb (a + b) 65536 then some (a + b) else none

abbrev pub sub_checked : ℕ → ℕ → Option ℕ
sub_checked a b = if leb b a then some (a - b) else none

-- The binary digits of a number below `2 ^ fuel`.
bit_length : ℕ → ℕ → ℕ
bit_length zero n = 0
bit_length (suc fuel) n = let rest = suc (bit_length fuel (n / 2)) in if n == 0 then 0 else rest

-- `u16::leading_zeros`.
leading_zeros : ℕ → ℕ
unfolding bit_length
leading_zeros n = 16 - bit_length 16 n

-- `i16::clamp`.
clamp : ℤ → ℤ → ℤ → ℤ
clamp lo hi x = if le_ℤ x lo then lo else if le_ℤ hi x then hi else x

-- The two halves of `ULAW_TO_LINEAR`: the first holds the magnitudes of negative samples.
ulaw_negative : List ℕ
ulaw_negative =
    32124 ∷ 31100 ∷ 30076 ∷ 29052 ∷ 28028 ∷ 27004 ∷ 25980 ∷ 24956 ∷ 23932 ∷ 22908 ∷ 21884 ∷ 20860
    ∷ 19836 ∷ 18812 ∷ 17788 ∷ 16764 ∷ 15996 ∷ 15484 ∷ 14972 ∷ 14460 ∷ 13948 ∷ 13436 ∷ 12924 ∷ 12412
    ∷ 11900 ∷ 11388 ∷ 10876 ∷ 10364 ∷ 9852 ∷ 9340 ∷ 8828 ∷ 8316 ∷ 7932 ∷ 7676 ∷ 7420 ∷ 7164 ∷ 6908
    ∷ 6652 ∷ 6396 ∷ 6140 ∷ 5884 ∷ 5628 ∷ 5372 ∷ 5116 ∷ 4860 ∷ 4604 ∷ 4348 ∷ 4092 ∷ 3900 ∷ 3772
    ∷ 3644 ∷ 3516 ∷ 3388 ∷ 3260 ∷ 3132 ∷ 3004 ∷ 2876 ∷ 2748 ∷ 2620 ∷ 2492 ∷ 2364 ∷ 2236 ∷ 2108
    ∷ 1980 ∷ 1884 ∷ 1820 ∷ 1756 ∷ 1692 ∷ 1628 ∷ 1564 ∷ 1500 ∷ 1436 ∷ 1372 ∷ 1308 ∷ 1244 ∷ 1180
    ∷ 1116 ∷ 1052 ∷ 988 ∷ 924 ∷ 876 ∷ 844 ∷ 812 ∷ 780 ∷ 748 ∷ 716 ∷ 684 ∷ 652 ∷ 620 ∷ 588 ∷ 556
    ∷ 524 ∷ 492 ∷ 460 ∷ 428 ∷ 396 ∷ 372 ∷ 356 ∷ 340 ∷ 324 ∷ 308 ∷ 292 ∷ 276 ∷ 260 ∷ 244 ∷ 228 ∷ 212
    ∷ 196 ∷ 180 ∷ 164 ∷ 148 ∷ 132 ∷ 120 ∷ 112 ∷ 104 ∷ 96 ∷ 88 ∷ 80 ∷ 72 ∷ 64 ∷ 56 ∷ 48 ∷ 40 ∷ 32
    ∷ 24 ∷ 16 ∷ 8 ∷ 0 ∷ []

ulaw_positive : List ℕ
ulaw_positive =
    32124 ∷ 31100 ∷ 30076 ∷ 29052 ∷ 28028 ∷ 27004 ∷ 25980 ∷ 24956 ∷ 23932 ∷ 22908 ∷ 21884 ∷ 20860
    ∷ 19836 ∷ 18812 ∷ 17788 ∷ 16764 ∷ 15996 ∷ 15484 ∷ 14972 ∷ 14460 ∷ 13948 ∷ 13436 ∷ 12924 ∷ 12412
    ∷ 11900 ∷ 11388 ∷ 10876 ∷ 10364 ∷ 9852 ∷ 9340 ∷ 8828 ∷ 8316 ∷ 7932 ∷ 7676 ∷ 7420 ∷ 7164 ∷ 6908
    ∷ 6652 ∷ 6396 ∷ 6140 ∷ 5884 ∷ 5628 ∷ 5372 ∷ 5116 ∷ 4860 ∷ 4604 ∷ 4348 ∷ 4092 ∷ 3900 ∷ 3772
    ∷ 3644 ∷ 3516 ∷ 3388 ∷ 3260 ∷ 3132 ∷ 3004 ∷ 2876 ∷ 2748 ∷ 2620 ∷ 2492 ∷ 2364 ∷ 2236 ∷ 2108
    ∷ 1980 ∷ 1884 ∷ 1820 ∷ 1756 ∷ 1692 ∷ 1628 ∷ 1564 ∷ 1500 ∷ 1436 ∷ 1372 ∷ 1308 ∷ 1244 ∷ 1180
    ∷ 1116 ∷ 1052 ∷ 988 ∷ 924 ∷ 876 ∷ 844 ∷ 812 ∷ 780 ∷ 748 ∷ 716 ∷ 684 ∷ 652 ∷ 620 ∷ 588 ∷ 556
    ∷ 524 ∷ 492 ∷ 460 ∷ 428 ∷ 396 ∷ 372 ∷ 356 ∷ 340 ∷ 324 ∷ 308 ∷ 292 ∷ 276 ∷ 260 ∷ 244 ∷ 228 ∷ 212
    ∷ 196 ∷ 180 ∷ 164 ∷ 148 ∷ 132 ∷ 120 ∷ 112 ∷ 104 ∷ 96 ∷ 88 ∷ 80 ∷ 72 ∷ 64 ∷ 56 ∷ 48 ∷ 40 ∷ 32
    ∷ 24 ∷ 16 ∷ 8 ∷ 0 ∷ []

ulaw_to_linear : List ℤ
unfolding ulaw_negative ulaw_positive
ulaw_to_linear = map neg_ℕ ulaw_negative ++ map pos ulaw_positive

unfoldable pub decode_i16 : ℕ → Option ℤ
unfolding ulaw_to_linear
decode_i16 code = get_elem? ulaw_to_linear code

-- `encode_i14` after the clamp.
encode_clamped : ℤ → Option ℕ
unfolding leading_zeros
encode_clamped clamped = do
  let linear = as_u16 clamped
  let sign_extended = as_u16 (neg_ℕ (linear / 2 ^ 15))
  magnitude ← add_u16 (bit_xor (u16 (linear * 8)) sign_extended) (33 * 8)
  let zeros = leading_zeros magnitude
  assert (ltb zeros 8)
  shift ← sub_checked 11 zeros
  let abcd = bit_and (u8 (magnitude / 2 ^ shift)) 0b1111
  exponent ← sub_checked 7 zeros
  assert (ltb exponent 8)
  let code = bit_or (bit_or (bit_and (u8 sign_extended) 0x80) (u8 (exponent * 16))) abcd
  some (bit_xor code 0xff)

pub encode_i14 : ℤ → Option ℕ
encode_i14 linear = encode_clamped (clamp (negsuc 8030) (pos 8031) linear)

-- `while i != 0 { segno += 1; i >>= 1; }`; sixteen rounds empty a `u16`.
segment : ℕ → ℕ → ℕ → ℕ
segment zero i segno = segno
segment (suc fuel) i segno =
    let rest = segment fuel (i / 2) (segno + 1) in if i == 0 then segno else rest

abbrev is_negative : ℤ → Bool
is_negative x = le_ℤ x (negsuc 0)

pub encode_ulaw_g191 : ℤ → Option ℕ
unfolding segment
encode_ulaw_g191 linear = do
  let negative = is_negative linear
  let absno = if negative then bit_xor (as_u16 linear) 0xffff else as_u16 linear
  let sign_bit : ℕ = if negative then 0x00 else 0x80
  sum ← add_u16 (absno / 4) 33
  let absno = min sum 0x1fff
  let segno = segment 16 (absno / 2 ^ 6) 1
  high_nibble ← sub_checked 8 segno
  low_nibble ← sub_checked 0x0f (bit_and (u8 (absno / 2 ^ segno)) 0x0f)
  some (bit_or (bit_or sign_bit (u8 (high_nibble * 16))) low_nibble)

-- The multiplication by the sign; the `u16` sum stays below 32768, so `as i16` keeps it.
abbrev with_sign : ℕ → ℕ → ℤ
with_sign code n = if ltb code 0x80 then neg_ℕ n else as_i16 n

pub decode_ulaw_g191 : ℕ → Option ℤ
decode_ulaw_g191 code = do
  let mantissa = bit_xor code 0xff
  let exponent = bit_and (mantissa / 2 ^ 4) 0x07
  let segment = exponent + 1
  let mantissa = bit_and mantissa 0x0f
  let step = u16 (4 * 2 ^ segment)
  sum ← add_u16 (u16 (0x80 * 2 ^ exponent)) (step * mantissa)
  sum ← add_u16 sum (step / 2)
  magnitude ← sub_checked sum (4 * 33)
  some (with_sign code magnitude)
