-- ===== src/Firmware/Uart.antt =====
-- The hexadecimal output of the debug port (tedium-soc/src/uart.rs): the characters that are
-- handed to the transmitter, each once it is ready.
pub mod Digits
mod Tests
use tedium.Common.{
  ℕ, zero, suc, ◌-◌, ◌*◌, ◌/◌, ◌^◌, List, [], ◌∷◌, Option, none, some, get_elem?, u32,
}
use tedium.Common.Outcome.{Outcome, ok, panic, out_of_bounds, ◌>>=◌}

pub hexchar : List ℕ
hexchar =
    0x30 ∷ 0x31 ∷ 0x32 ∷ 0x33 ∷ 0x34 ∷ 0x35 ∷ 0x36 ∷ 0x37 ∷ 0x38 ∷ 0x39 ∷ 0x61 ∷ 0x62 ∷ 0x63 ∷ 0x64
    ∷ 0x65 ∷ 0x66 ∷ []

abbrev char_at : Option ℕ → Outcome ℕ
char_at (some c) = ok c
char_at none = panic out_of_bounds

-- The loop, for the rounds that are left.
pub hex_loop : (rounds x : ℕ) → Outcome (List ℕ)
unfolding hexchar
hex_loop zero x = ok []
hex_loop (suc rounds) x = do
  c ← char_at (get_elem? hexchar (x / 2 ^ 28))
  cs ← hex_loop rounds (u32 (x * 2 ^ 4))
  ok (c ∷ cs)

-- `v << ((8 - digits) * 4)`, for 1 to 8 digits.
pub write_hex : (v digits : ℕ) → Outcome (List ℕ)
unfolding hex_loop
write_hex v digits = hex_loop digits (u32 (v * 2 ^ ((8 - digits) * 4)))

pub write_hex_u8 : ℕ → Outcome (List ℕ)
unfolding write_hex
write_hex_u8 v = write_hex v 2

pub write_hex_u16 : ℕ → Outcome (List ℕ)
unfolding write_hex
write_hex_u16 v = write_hex v 4

pub write_hex_u32 : ℕ → Outcome (List ℕ)
unfolding write_hex
write_hex_u32 v = write_hex v 8
