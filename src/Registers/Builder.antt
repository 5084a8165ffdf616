-- ===== src/Registers/Builder.antt =====
-- A chain of setters, `register.with_A(a).with_B(b)`, on a byte, and what it is by the law of the
-- setters: where every value fits its field, that of the arithmetic.
use tedium.Common.{
  ℕ, ◌^◌, ◌<◌, ◌≡◌, refl, subst, ◌∙◌, ltb, ltb→lt, Bool, true, false, ◌&&◌, Option, none, some,
  List, [], ◌∷◌, ◌==◌, ==_iff, bit_and, bit_or, all_below, all_below_sound, Option-cases, inl, inr,
  arith,
}
use Prim.Native.String.{String}
use tedium.Registers.Layout.{Layout, Position, position}
use tedium.Registers.Bitfield.{Bitfield, get_field, with_field, arithmetic}

-- The setters of a chain, the first to be called first.
abbrev pub Setters : Type 0
Setters = List (String × ℕ)

unfoldable pub with_fields : Bitfield → Layout → Setters → ℕ → ℕ
with_fields bf layout [] byte = byte
with_fields bf layout ((name, value) ∷ rest) byte =
    with_fields bf layout rest (with_field bf layout name value byte)

abbrev pub fits_at : Option Position → ℕ → Bool
fits_at (some p) value = ltb value (2 ^ p.size)
fits_at none value = false

-- Does the register have each field, and the field room for its value?
unfoldable pub fits : Layout → Setters → Bool
unfolding position
fits layout [] = true
fits layout ((name, value) ∷ rest) = fits_at (position name layout) value && fits layout rest

pub get_field-arithmetic :
    (bf : Bitfield) (layout : Layout) (name : String) (byte : ℕ)
    → get_field bf layout name byte ≡ get_field arithmetic layout name byte
unfolding get_field
get_field-arithmetic bf layout name byte = elim (Option-cases (position name layout)) [
  | inl e ↦ rw e refl
  | inr (p, e) ↦ rw e (bf.get_lem p.low p.size byte)
]

with_field-arithmetic :
    (bf : Bitfield) (layout : Layout) (name : String) (value byte : ℕ)
    → fits_at (position name layout) value ≡ true
    → with_field bf layout name value byte ≡ with_field arithmetic layout name value byte
unfolding with_field
with_field-arithmetic bf layout name value byte h = elim (Option-cases (position name layout)) [
  | inl e ↦ rw e refl
  | inr (p, e) ↦ rw e (
      bf.set_lem p.low p.size value byte
        (ltb→lt value (2 ^ p.size) (subst (λ o. fits_at o value ≡ true) e h)))
]

pub with_fields-arithmetic :
    (bf : Bitfield) (layout : Layout) (setters : Setters) (byte : ℕ)
    → fits layout setters ≡ true
    → with_fields bf layout setters byte ≡ with_fields arithmetic layout setters byte
unfolding with_fields fits
with_fields-arithmetic bf layout [] byte h = refl
with_fields-arithmetic bf layout ((name, value) ∷ rest) byte h =
    rw (with_field-arithmetic bf layout name value byte (ground (arith))) (
      with_fields-arithmetic bf layout rest (with_field arithmetic layout name value byte)
        (ground (arith)))

abbrev keeps_at : Layout → Setters → (keep value old : ℕ) → Bool
unfolding with_fields with_field
keeps_at layout setters keep value old =
    with_fields arithmetic layout setters old == bit_or (bit_and old keep) value

-- Do the setters keep the bits of a mask of every byte, and make the others those of a value?
unfoldable pub keeps : Layout → Setters → (keep value : ℕ) → Bool
unfolding keeps_at all_below
keeps layout setters keep value = all_below 256 (keeps_at layout setters keep value)

pub with_fields-keeps :
    (bf : Bitfield) (layout : Layout) (setters : Setters) (keep value : ℕ)
    → fits layout setters ≡ true
    → keeps layout setters keep value ≡ true
    → (old : ℕ) → old < 256
    → with_fields bf layout setters old ≡ bit_or (bit_and old keep) value
unfolding keeps
with_fields-keeps bf layout setters keep value h k old l =
    with_fields-arithmetic bf layout setters old h
    ∙ (==_iff _ _).0 (all_below_sound 256 (keeps_at layout setters keep value) old k l)
