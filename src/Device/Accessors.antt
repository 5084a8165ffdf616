-- ===== src/Device/Accessors.antt =====
-- The accessors of `Channel` and `Timeslot` (xrt86vx38-pac/src/device.rs): each names a register
-- by its address. Those with an index take it from a table.
pub mod Distinct
pub mod Pages
pub mod Tables
mod Tests
use tedium.Common.{ℕ, ◌+◌, List, [], ◌∷◌, ltb, get_elem?, length}
use tedium.Common.Outcome.{Outcome, ◌>>=◌, ◌>>◌, assert}
use tedium.Device.Offsets.{FramerRegister, framer_offset, LiuRegister, liu_offset}
use tedium.Device.Addressing
use tedium.Device.Addressing.{index}

-- `access_framer` and `access_liu`.
unfoldable pub access_framer : ℕ → ℕ → Outcome ℕ
access_framer channel offset = Addressing.channel_nxxx channel offset

unfoldable pub access_liu : ℕ → ℕ → Outcome ℕ
access_liu channel offset = Addressing.channel_0fnx channel offset

-- The accessors of `Timeslot` with a block of registers; `rds0mr` has its own.
pub data TimeslotRegister : Type 0 where
  tds0mr tccr tucr tscr rccr rucr rscr rssr rsar : TimeslotRegister

unfoldable pub block_offset : TimeslotRegister → ℕ
block_offset tds0mr = 0x1d0
block_offset tccr = 0x300
block_offset tucr = 0x320
block_offset tscr = 0x340
block_offset rccr = 0x360
block_offset rucr = 0x380
block_offset rscr = 0x3a0
block_offset rssr = 0x3c0
block_offset rsar = 0x500

unfoldable pub access_timeslot : ℕ → TimeslotRegister → ℕ → Outcome ℕ
access_timeslot channel register timeslot =
    Addressing.channel_nxxx_timeslot channel (block_offset register) timeslot

-- `const MAP`, `assert!(index < MAP.len())` and the access.
abbrev pub access_map : List ℕ → ℕ → ℕ → Outcome ℕ
access_map table channel i = do
  assert (ltb i (length table))
  offset ← index (get_elem? table i)
  access_framer channel offset

-- `access_rds0mr`.
unfoldable pub access_rds0mr : ℕ → ℕ → Outcome ℕ
access_rds0mr channel timeslot = Addressing.rds0mr channel timeslot

abbrev pub rscr_x_map : List ℕ
rscr_x_map = 0x10d ∷ 0x10e ∷ 0x10f ∷ []

unfoldable pub rscr_x : ℕ → ℕ → Outcome ℕ
rscr_x = access_map rscr_x_map

abbrev pub rdlbcr_map : List ℕ
rdlbcr_map = 0x115 ∷ 0x145 ∷ 0x155 ∷ []

unfoldable pub rdlbcr : ℕ → ℕ → Outcome ℕ
rdlbcr = access_map rdlbcr_map

abbrev pub rlcisr_x_map : List ℕ
rlcisr_x_map = 0xb0a ∷ 0xb14 ∷ 0xb1a ∷ 0xb1c ∷ 0xb1e ∷ 0xb20 ∷ 0xb22 ∷ 0xb24 ∷ []

unfoldable pub rlcisr_x : ℕ → ℕ → Outcome ℕ
rlcisr_x = access_map rlcisr_x_map

abbrev pub rlcier_x_map : List ℕ
rlcier_x_map = 0xb0b ∷ 0xb15 ∷ 0xb1b ∷ 0xb1d ∷ 0xb1f ∷ 0xb21 ∷ 0xb23 ∷ 0xb25 ∷ []

unfoldable pub rlcier_x : ℕ → ℕ → Outcome ℕ
rlcier_x = access_map rlcier_x_map

abbrev pub dlsr_map : List ℕ
dlsr_map = 0xb06 ∷ 0xb16 ∷ 0xb26 ∷ []

unfoldable pub dlsr : ℕ → ℕ → Outcome ℕ
dlsr = access_map dlsr_map

abbrev pub ss7sr_map : List ℕ
ss7sr_map = 0xb10 ∷ 0xb18 ∷ 0xb28 ∷ []

unfoldable pub ss7sr : ℕ → ℕ → Outcome ℕ
ss7sr = access_map ss7sr_map

unfoldable pub rsar_x : ℕ → ℕ → Outcome ℕ
rsar_x channel i = do assert (ltb i 24); access_framer channel (0x500 + i)

unfoldable pub lapdbcr0 : ℕ → ℕ → Outcome ℕ
lapdbcr0 channel i = do assert (ltb i 96); access_framer channel (0x600 + i)

unfoldable pub lapdbcr1 : ℕ → ℕ → Outcome ℕ
lapdbcr1 channel i = do assert (ltb i 96); access_framer channel (0x700 + i)
