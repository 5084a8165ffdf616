-- ===== src/Device/Accessors/Distinct.antt =====
-- No two registers of the chip's channels share an address (`Channel` and `Timeslot` of
-- xrt86vx38-pac/src/device.rs).
use tedium.Common.{
  ℕ, zero, suc, ◌+◌, ◌*◌, ◌<◌, ◌≤◌, ◌≡◌, refl, ◌∙◌, sym, ap, ap₂, subst, arith, List, [], ◌∷◌, some,
  get_elem?,
}
use tedium.Common.Outcome.{Outcome, ok}
use tedium.Device.Offsets.{
  framer_offset_injective, LiuRegister, liu_offset, liu_offset_injective, liu_offset-lt,
}
use tedium.Device.Addressing.Laws.{channel_0fnx_lem}
use tedium.Device.Accessors.{access_liu, TimeslotRegister, block_offset}
use tedium.Device.Accessors.Pages.{
  TableRegister, channel_rscr, channel_rdlbcr, channel_dlsr, channel_ss7sr, timeslot_rds0mr, table,
  table_kind, PageRegister, framer, timeslot, buffer_0, buffer_1, entry, kind, Offset, page_address,
  IsAt, page_address-IsAt,
}

-- A register of a channel: in its row of the line interface unit, or in its page.
pub data Register : Type 0 where
  liu : ℕ → LiuRegister → Register
  page : ℕ → PageRegister → Register

unfoldable pub address : Register → Outcome ℕ
address (liu channel r) = access_liu channel (liu_offset r)
address (page channel x) = page_address channel x

-- Two timeslots of two blocks meet only if they are the same.
slots_injective :
    (r s : TimeslotRegister) (i j : ℕ)
    → i < 24
    → j < 24
    → block_offset r + i ≡ block_offset s + j
    → (r ≡ s) × (i ≡ j)
unfolding block_offset
slots_injective r s i j h k e = ground arith

-- The entries ascend, so that each stands in one place.
abbrev Ascends : ℕ → List ℕ → Type 0
Ascends lo [] = Unit
Ascends lo (o ∷ os) = (lo ≤ o) × Ascends (suc o) os

Ascends-le : (lo : ℕ) (os : List ℕ) (i o : ℕ) → Ascends lo os → get_elem? os i ≡ some o → lo ≤ o
Ascends-le lo [] i o h e = absurd (cc e)
Ascends-le lo (p ∷ os) zero o h e = let same : p ≡ o = cc e in omega (arith, h.0, same)
Ascends-le lo (p ∷ os) (suc i) o h e = omega (arith, h.0, Ascends-le (suc p) os i o h.1 e)

Ascends-injective :
    (lo : ℕ) (os : List ℕ) (i j o : ℕ)
    → Ascends lo os
    → get_elem? os i ≡ some o
    → get_elem? os j ≡ some o
    → i ≡ j
Ascends-injective lo [] i j o h e f = absurd (cc e)
Ascends-injective lo (p ∷ os) zero zero o h e f = refl
Ascends-injective lo (p ∷ os) zero (suc j) o h e f =
    let same : p ≡ o = cc e in absurd (omega (arith, same, Ascends-le (suc p) os j o h.1 f))
Ascends-injective lo (p ∷ os) (suc i) zero o h e f =
    let same : p ≡ o = cc f in absurd (omega (arith, same, Ascends-le (suc p) os i o h.1 e))
Ascends-injective lo (p ∷ os) (suc i) (suc j) o h e f =
    ap suc (Ascends-injective (suc p) os i j o h.1 e f)

table-Ascends : (t : TableRegister) → Ascends 0 (table t)
table-Ascends channel_rscr = omega arith
table-Ascends _ = omega arith

-- The table with a number.
table_of : ℕ → TableRegister
table_of zero = channel_rscr
table_of (suc zero) = channel_rdlbcr
table_of (suc (suc zero)) = channel_dlsr
table_of (suc (suc (suc zero))) = channel_ss7sr
table_of (suc (suc (suc (suc n)))) = timeslot_rds0mr

table_of-table_kind : (t : TableRegister) → table_of (table_kind t) ≡ t
unfolding table_of
table_of-table_kind channel_rscr = refl
table_of-table_kind _ = refl

table_kind_injective : (t u : TableRegister) → table_kind t ≡ table_kind u → t ≡ u
table_kind_injective t u e = sym (table_of-table_kind t) ∙ ap table_of e ∙ table_of-table_kind u

-- In one group, the offset makes out the register.
group_injective : (x y : PageRegister) (o : ℕ) → kind x ≡ kind y → Offset x o → Offset y o → x ≡ y
group_injective (framer r) (framer s) o k e f = ap framer (framer_offset_injective r s (sym e ∙ f))
group_injective (timeslot r i) (timeslot s j) o k (li, e) (lj, f) =
    let (same, slots) = slots_injective r s i j li lj (sym e ∙ f) in cc (same, slots)
group_injective (buffer_0 i) (buffer_0 j) o k e f = ap buffer_0 (omega (arith, e, f))
group_injective (buffer_1 i) (buffer_1 j) o k e f = ap buffer_1 (omega (arith, e, f))
group_injective (entry t i) (entry u j) o k e f =
    let same : t ≡ u = table_kind_injective t u (omega (arith, k)) in
    let there : get_elem? (table t) j ≡ some o = cc (f, same) in
    ap₂ entry same (Ascends-injective 0 (table t) i j o (table-Ascends t) e there)
group_injective x y o k e f = absurd (omega (arith, k))

liu-at :
    (c : ℕ) (r : LiuRegister) (a : ℕ)
    → address (liu c r) ≡ ok a
    → (c < 8) × (a ≡ 0x0f00 + c * 16 + liu_offset r)
unfolding address access_liu
liu-at c r a e = ground (arith, channel_0fnx_lem c (liu_offset r))

liu-ne-page :
    (c d a : ℕ) (r : LiuRegister) (x : PageRegister)
    → address (liu c r) ≡ ok a
    → address (page d x) ≡ ok a
    → ⊥
unfolding address
liu-ne-page c d a r x e f =
    let p = page_address-IsAt d x a f in
    omega (arith, liu-at c r a e, liu_offset-lt r, p.channel, p.place, p.below)

pages_injective :
    (c d : ℕ) (x y : PageRegister) (a : ℕ) → IsAt c x a → IsAt d y a → page c x ≡ page d y
pages_injective c d x y a p q =
    let offsets : p.offset ≡ q.offset =
      omega (arith, p.place, q.place, p.below, q.below, p.channel, q.channel) in
    let channels : c ≡ d =
      omega (arith, p.place, q.place, p.below, q.below, p.channel, q.channel) in
    let groups : kind x ≡ kind y = cc (p.group, q.group, offsets) in
    let there : Offset y p.offset = subst (Offset y) (sym offsets) q.by_register in
    ap₂ page channels (group_injective x y p.offset groups p.by_register there)

-- If two accesses of a channel succeed and reach one address, they are the same accessor of the same
-- channel, and of the same timeslot or index. The accessors are those of a channel's line interface
-- unit, those of its page with a fixed offset, `rscr`, `rdlbcr`, `dlsr`, `ss7sr`, `lapdbcr0` and
-- `lapdbcr1`, and all ten of a timeslot; `rsar`, `rlcisr_x` and `rlcier_x` of a channel are left
-- out, since they are second ways to a timeslot's `rsar` and to `rlcisr0` to `rlcier7`.
pub address_injective : (x y : Register) (a : ℕ) → address x ≡ ok a → address y ≡ ok a → x ≡ y
unfolding address
address_injective (liu c r) (liu d s) a e f =
    let same =
      liu_offset_injective r s
        (omega (arith, liu-at c r a e, liu-at d s a f, liu_offset-lt r, liu_offset-lt s)) in
    ap₂ liu (omega (arith, liu-at c r a e, liu-at d s a f, liu_offset-lt r, liu_offset-lt s)) same
address_injective (liu c r) (page d y) a e f = absurd (liu-ne-page c d a r y e f)
address_injective (page c x) (liu d s) a e f = absurd (liu-ne-page d c a s x f e)
address_injective (page c x) (page d y) a e f =
    pages_injective c d x y a (page_address-IsAt c x a e) (page_address-IsAt d y a f)
