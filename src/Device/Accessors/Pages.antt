-- ===== src/Device/Accessors/Pages.antt =====
-- The registers in the page of a channel, and where each lies (`Channel` and `Timeslot` of
-- xrt86vx38-pac/src/device.rs).
use tedium.Common.{
  ℕ, zero, suc, ◌+◌, ◌*◌, ◌<◌, ◌≤◌, ◌≡◌, refl, subst, bit_and, arith, ◌⊎◌, Bool, true, false, List,
  [], ◌∷◌, Option, none, some, get_elem?, All, ltb, leb, ◌==◌, ◌&&◌, ◌||◌, if◌then◌else◌,
}
use tedium.Common.Outcome.{Outcome, ok, assert, ◌>>=◌, ◌>>◌}
use tedium.Device.Offsets.{FramerRegister, framer_offset, csr}
use tedium.Device.Addressing.{channel_nxxx, index, rds0mr, rds0mr_offsets}
use tedium.Device.Addressing.Laws.{channel_nxxx_lem, channel_nxxx_timeslot_lem}
use tedium.Device.Accessors.{
  access_framer, TimeslotRegister, tds0mr, block_offset, access_timeslot, access_rds0mr, rscr_x,
  rscr_x_map, rdlbcr, rdlbcr_map, dlsr, dlsr_map, ss7sr, ss7sr_map, lapdbcr0, lapdbcr1,
}

-- The accessors that take their offset from a table: four of `Channel` and one of `Timeslot`.
pub data TableRegister : Type 0 where
  channel_rscr channel_rdlbcr channel_dlsr channel_ss7sr timeslot_rds0mr : TableRegister

abbrev pub table : TableRegister → List ℕ
table channel_rscr = rscr_x_map
table channel_rdlbcr = rdlbcr_map
table channel_dlsr = dlsr_map
table channel_ss7sr = ss7sr_map
table timeslot_rds0mr = rds0mr_offsets

pub data PageRegister : Type 0 where
  framer : FramerRegister → PageRegister
  timeslot : TimeslotRegister → ℕ → PageRegister
  buffer_0 : ℕ → PageRegister
  buffer_1 : ℕ → PageRegister
  entry : TableRegister → ℕ → PageRegister

-- The address that the accessor of the channel reaches.
unfoldable pub page_address : ℕ → PageRegister → Outcome ℕ
page_address channel (framer r) = access_framer channel (framer_offset r)
page_address channel (timeslot r i) = access_timeslot channel r i
page_address channel (buffer_0 i) = lapdbcr0 channel i
page_address channel (buffer_1 i) = lapdbcr1 channel i
page_address channel (entry channel_rscr i) = rscr_x channel i
page_address channel (entry channel_rdlbcr i) = rdlbcr channel i
page_address channel (entry channel_dlsr i) = dlsr channel i
page_address channel (entry channel_ss7sr i) = ss7sr channel i
page_address channel (entry timeslot_rds0mr i) = access_rds0mr channel i

-- A number for each group of registers, and the group that an offset belongs to.
abbrev pub table_kind : TableRegister → ℕ
table_kind channel_rscr = 0
table_kind channel_rdlbcr = 1
table_kind channel_dlsr = 2
table_kind channel_ss7sr = 3
table_kind timeslot_rds0mr = 4

abbrev pub kind : PageRegister → ℕ
kind (framer r) = 0
kind (timeslot r i) = 1
kind (buffer_0 i) = 2
kind (buffer_1 i) = 3
kind (entry t i) = 4 + table_kind t

abbrev between : ℕ → ℕ → ℕ → Bool
between lo hi o = leb lo o && ltb o hi

pub kind_at : ℕ → ℕ
kind_at o =
    if between 0x1d0 0x1e8 o || between 0x300 0x3d8 o || between 0x500 0x518 o
    then 1
    else if between 0x600 0x660 o
    then 2
    else if between 0x700 0x760 o
    then 3
    else if between 0x10d 0x110 o
    then 4
    else if o == 0x115 || o == 0x145 || o == 0x155
    then 5
    else if o == 0xb06 || o == 0xb16 || o == 0xb26
    then 6
    else if o == 0xb10 || o == 0xb18 || o == 0xb28
    then 7
    else if between 0x15f 0x163 o || between 0x164 0x170 o || between 0x1c0 0x1c8 o
    then 8
    else 0

-- How a register's offset in the page comes about.
abbrev pub Offset : PageRegister → ℕ → Type 0
Offset (framer r) o = o ≡ framer_offset r
Offset (timeslot r i) o = (i < 24) × (o ≡ block_offset r + i)
Offset (buffer_0 i) o = o ≡ 0x600 + i
Offset (buffer_1 i) o = o ≡ 0x700 + i
Offset (entry t i) o = get_elem? (table t) i ≡ some o

pub record IsAt (c : ℕ) (x : PageRegister) (a : ℕ) : Type 0 where
  pub offset : ℕ
  pub channel : c < 8
  pub place : a ≡ c * 4096 + offset
  pub below : offset < 0xf00
  pub group : kind_at offset ≡ kind x
  pub by_register : Offset x offset

nxxx-IsAt :
    (c o : ℕ) (x : PageRegister) (a : ℕ)
    → channel_nxxx c o ≡ ok a
    → o < 0xf00
    → kind_at o ≡ kind x
    → Offset x o
    → IsAt c x a
nxxx-IsAt c o x a e l k h =
    let (b, p) : (c < 8) × (a ≡ c * 4096 + o) = ground (arith, channel_nxxx_lem c o) in
    record { offset = o; channel = b; place = p; below = l; group = k; by_register = h }

framer_offset-lt_page : (r : FramerRegister) → framer_offset r < 0xf00
unfolding framer_offset
framer_offset-lt_page csr = omega arith
framer_offset-lt_page _ = omega arith

framer_offset-kind : (r : FramerRegister) → kind_at (framer_offset r) ≡ 0
unfolding framer_offset kind_at
framer_offset-kind csr = refl
framer_offset-kind _ = refl

record IsBlock (o : ℕ) : Type 0 where
  aligned : bit_and o 15 ≡ 0
  placed : (o ≡ 0x1d0) ⊎ (((0x300 ≤ o) × (o ≤ 0x3c0)) ⊎ (o ≡ 0x500))

block_offset-IsBlock : (r : TimeslotRegister) → IsBlock (block_offset r)
unfolding block_offset
block_offset-IsBlock tds0mr = record { aligned = refl; placed = omega arith }
block_offset-IsBlock _ = record { aligned = refl; placed = omega arith }

block-kind : (b i : ℕ) → IsBlock b → i < 24 → kind_at (b + i) ≡ 1
unfolding kind_at
block-kind b i h l = ground (arith, h.placed)

timeslot-IsAt :
    (c : ℕ) (r : TimeslotRegister) (i a : ℕ)
    → page_address c (timeslot r i) ≡ ok a
    → IsAt c (timeslot r i) a
unfolding page_address access_timeslot
timeslot-IsAt c r i a e =
    let b = block_offset-IsBlock r in
    let (h, l, p) : (c < 8) × (i < 24) × (a ≡ c * 4096 + (block_offset r + i)) =
      ground (arith, channel_nxxx_timeslot_lem c (block_offset r) i, b.aligned, b.placed) in
    record {
      offset = block_offset r + i;
      channel = h;
      place = p;
      below = omega (arith, b.placed, l);
      group = block-kind (block_offset r) i b l;
      by_register = (l, refl);
    }

-- An access by a table finds an entry of it.
found :
    (b : Bool) (r : Option ℕ) (c a : ℕ)
    → (assert b >> (index r >>= λ offset. channel_nxxx c offset)) ≡ ok a
    → (o : ℕ) × (r ≡ some o) × (channel_nxxx c o ≡ ok a)
found true (some o) c a e = (o, refl, e)
found true none c a e = absurd (cc e)
found false r c a e = absurd (cc e)

get-All : (P : ℕ → Type 0) (os : List ℕ) (i o : ℕ) → All P os → get_elem? os i ≡ some o → P o
get-All P [] i o h e = absurd (cc e)
get-All P (p ∷ os) zero o h e = let same : p ≡ o = cc e in subst P same h.0
get-All P (p ∷ os) (suc i) o h e = get-All P os i o h.1 e

-- The table's entries are of one group.
table-kind : (t : TableRegister) → All (λ o. (o < 0xf00) × (kind_at o ≡ 4 + table_kind t)) (table t)
unfolding kind_at
table-kind channel_rscr = omega arith
table-kind channel_rdlbcr = omega arith
table-kind channel_dlsr = omega arith
table-kind channel_ss7sr = omega arith
table-kind timeslot_rds0mr = omega arith

entry-IsAt :
    (c : ℕ) (t : TableRegister) (i a : ℕ)
    → ((o : ℕ) × (get_elem? (table t) i ≡ some o) × (channel_nxxx c o ≡ ok a))
    → IsAt c (entry t i) a
entry-IsAt c t i a (o, at, e) =
    let (l, k) =
      get-All (λ o. (o < 0xf00) × (kind_at o ≡ 4 + table_kind t)) (table t) i o (table-kind t) at in
    nxxx-IsAt c o (entry t i) a e l k at

buffer-kind : (i : ℕ) → i < 96 → (kind_at (0x600 + i) ≡ 2) × (kind_at (0x700 + i) ≡ 3)
unfolding kind_at
buffer-kind i l = (ground arith, ground arith)

buffer-found :
    (i c o a : ℕ)
    → (assert (ltb i 96) >> channel_nxxx c o) ≡ ok a
    → (i < 96) × (channel_nxxx c o ≡ ok a)
buffer-found i c o a e = ground arith

-- Where an accessor succeeds, the channel is one of the eight, and the register lies in its page,
-- at its offset.
pub page_address-IsAt : (c : ℕ) (x : PageRegister) (a : ℕ) → page_address c x ≡ ok a → IsAt c x a
unfolding page_address access_framer rscr_x rdlbcr dlsr ss7sr access_rds0mr rds0mr lapdbcr0 lapdbcr1
page_address-IsAt c (framer r) a e =
    nxxx-IsAt c (framer_offset r) (framer r) a e (framer_offset-lt_page r) (framer_offset-kind r)
      refl
page_address-IsAt c (timeslot r i) a e = timeslot-IsAt c r i a e
page_address-IsAt c (buffer_0 i) a e =
    let (l, f) = buffer-found i c (0x600 + i) a e in
    nxxx-IsAt c (0x600 + i) (buffer_0 i) a f (omega (arith, l)) (buffer-kind i l).0 refl
page_address-IsAt c (buffer_1 i) a e =
    let (l, f) = buffer-found i c (0x700 + i) a e in
    nxxx-IsAt c (0x700 + i) (buffer_1 i) a f (omega (arith, l)) (buffer-kind i l).1 refl
page_address-IsAt c (entry channel_rscr i) a e = entry-IsAt c channel_rscr i a (found _ _ c a e)
page_address-IsAt c (entry channel_rdlbcr i) a e = entry-IsAt c channel_rdlbcr i a (found _ _ c a e)
page_address-IsAt c (entry channel_dlsr i) a e = entry-IsAt c channel_dlsr i a (found _ _ c a e)
page_address-IsAt c (entry channel_ss7sr i) a e = entry-IsAt c channel_ss7sr i a (found _ _ c a e)
page_address-IsAt c (entry timeslot_rds0mr i) a e =
    entry-IsAt c timeslot_rds0mr i a (found _ _ c a e)
