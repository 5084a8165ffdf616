-- ===== src/Device/Addressing.antt =====
-- The address of a register (`Addressing` of xrt86vx38-pac/src/device.rs). An assertion that
-- fails is a panic.
pub mod Laws
use tedium.Common.{
  ℕ, ◌+◌, ◌*◌, ◌^◌, bit_and, bit_or, List, [], ◌∷◌, ltb, ◌==◌, get_elem?, Option, none, some,
}
use tedium.Common.Outcome.{Outcome, ok, panic, out_of_bounds, ◌>>=◌, ◌>>◌, assert}

abbrev pub channels_count : ℕ
channels_count = 8

abbrev pub timeslots_count : ℕ
timeslots_count = 24

pub global : ℕ → Outcome ℕ
global offset = do assert (ltb offset 0x10000); ok offset

unfoldable pub channel_nxxx : ℕ → ℕ → Outcome ℕ
unfolding global
channel_nxxx channel offset = do
  assert (ltb channel channels_count)
  assert (ltb offset 0x1000)
  global (bit_or (channel * 2 ^ 12) offset)

unfoldable pub channel_nxxx_timeslot : ℕ → ℕ → ℕ → Outcome ℕ
channel_nxxx_timeslot channel block_offset timeslot = do
  assert (bit_and block_offset 0xf == 0)
  assert (ltb timeslot timeslots_count)
  channel_nxxx channel (block_offset + timeslot)

pub channel_0fnx : ℕ → ℕ → Outcome ℕ
unfolding global
channel_0fnx channel offset = do
  assert (ltb channel channels_count)
  assert (ltb offset 16)
  global (bit_or (bit_or 0x0f00 (channel * 2 ^ 4)) offset)

pub global_0fex : ℕ → Outcome ℕ
unfolding global
global_0fex offset = do assert (ltb offset 16); global (bit_or 0x0fe0 offset)

-- `OFFSET_MAP` of `rds0mr`.
abbrev pub rds0mr_offsets : List ℕ
rds0mr_offsets =
    0x15f ∷ 0x160 ∷ 0x161 ∷ 0x162 ∷ 0x164 ∷ 0x165 ∷ 0x166 ∷ 0x167 ∷ 0x168 ∷ 0x169 ∷ 0x16a ∷ 0x16b
    ∷ 0x16c ∷ 0x16d ∷ 0x16e ∷ 0x16f ∷ 0x1c0 ∷ 0x1c1 ∷ 0x1c2 ∷ 0x1c3 ∷ 0x1c4 ∷ 0x1c5 ∷ 0x1c6 ∷ 0x1c7
    ∷ []

abbrev pub index : Option ℕ → Outcome ℕ
index (some x) = ok x
index none = panic out_of_bounds

unfoldable pub rds0mr : ℕ → ℕ → Outcome ℕ
rds0mr channel timeslot = do
  assert (ltb timeslot 24)
  offset ← index (get_elem? rds0mr_offsets timeslot)
  channel_nxxx channel offset
