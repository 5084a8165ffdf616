-- ===== src/Firmware/Uart/Digits.antt =====
-- What is printed are the digits of the number.
use tedium.Common.{
  ℕ, zero, suc, ◌+◌, ◌-◌, ◌*◌, ◌/◌, ◌^◌, ◌<◌, ◌≡◌, refl, ap, ◌∙◌, Bool, true, false, none, List, [],
  ◌∷◌, length, Option, some, get_elem?, u32, all_below, all_below_sound, if◌then◌else◌, ltb, ◌==◌,
  ==_iff, arith,
}
use tedium.Common.Outcome.{ok}
use tedium.Firmware.Uart.{hexchar, hex_loop, write_hex, write_hex_u8, write_hex_u16, write_hex_u32}

-- The value of a hexadecimal digit in lower case, and of a row of digits after `before`.
abbrev pub digit_value : ℕ → ℕ
digit_value c = if ltb c 0x61 then c - 0x30 else c - 0x57

unfoldable pub hex_value : (before : ℕ) → List ℕ → ℕ
hex_value before [] = before
hex_value before (c ∷ cs) = hex_value (before * 16 + digit_value c) cs

abbrev char_of : ℕ → ℕ
char_of d = if ltb d 10 then d + 0x30 else d + 0x57

abbrev is_char : Option ℕ → ℕ → Bool
is_char (some c) d = c == d
is_char none d = false

is_char-eq : (o : Option ℕ) (d : ℕ) → is_char o d ≡ true → o ≡ some d
is_char-eq (some c) d e = ap some ((==_iff c d).0 e)
is_char-eq none d e = cc e

chars : all_below 16 (λ d. is_char (get_elem? hexchar d) (char_of d)) ≡ true
unfolding all_below hexchar
chars = refl

hexchar-char_of : (d : ℕ) → d < 16 → get_elem? hexchar d ≡ some (char_of d)
hexchar-char_of d h = is_char-eq _ (char_of d) (all_below_sound 16 _ d chars h)

char_value : (d : ℕ) → d < 16 → digit_value (char_of d) ≡ d
char_value d h = ground arith

-- The digits at the top of a word, as a number after `before`.
top : (rounds before x : ℕ) → ℕ
top zero before x = before
top (suc rounds) before x = top rounds (before * 16 + x / 2 ^ 28) (u32 (x * 2 ^ 4))

-- Digits of a number in hexadecimal.
abbrev pub IsPrinted : (count before v : ℕ) → List ℕ → Type 0
IsPrinted count before v cs = (length cs ≡ count) × (hex_value before cs ≡ v)

loop-IsPrinted :
    (rounds before x : ℕ)
    → x < 2 ^ 32
    → (cs : List ℕ) × (hex_loop rounds x ≡ ok cs) × IsPrinted rounds before (top rounds before x) cs
unfolding hex_loop hex_value top
loop-IsPrinted zero before x h = ([], refl, (refl, refl))
loop-IsPrinted (suc rounds) before x h =
    let d = x / 2 ^ 28 in
    let small : d < 16 = omega arith in
    let (cs, e, (l, v)) = loop-IsPrinted rounds (before * 16 + d) (u32 (x * 2 ^ 4)) (omega arith) in
    (
      char_of d ∷ cs,
      rw (hexchar-char_of d small, e) refl,
      (omega (arith, l), rw (char_value d small) v),
    )

pub write_hex-IsPrinted :
    (a b c : ℕ)
    → a < 2 ^ 8
    → b < 2 ^ 16
    → c < 2 ^ 32
    → ((cs : List ℕ) × (write_hex_u8 a ≡ ok cs) × IsPrinted 2 0 a cs)
      × ((cs : List ℕ) × (write_hex_u16 b ≡ ok cs) × IsPrinted 4 0 b cs)
      × ((cs : List ℕ) × (write_hex_u32 c ≡ ok cs) × IsPrinted 8 0 c cs)
unfolding write_hex_u8 write_hex_u16 write_hex_u32 write_hex top
write_hex-IsPrinted a b c h k l =
    let (as_, e_a, (n_a, v_a)) = loop-IsPrinted 2 0 (u32 (a * 2 ^ 24)) (omega arith) in
    let (bs, e_b, (n_b, v_b)) = loop-IsPrinted 4 0 (u32 (b * 2 ^ 16)) (omega arith) in
    let (cs, e_c, (n_c, v_c)) = loop-IsPrinted 8 0 (u32 (c * 2 ^ 0)) (omega arith) in
    (
      (as_, e_a, (n_a, v_a ∙ omega arith)),
      (bs, e_b, (n_b, v_b ∙ omega arith)),
      (cs, e_c, (n_c, v_c ∙ omega arith)),
    )
