-- ===== src/Registers/Layout.antt =====
-- How the declaration of a register, under `#[bitfield(bits=8)]`, names the bits of a byte.
use tedium.Common.{
  ℕ, ◌+◌, ◌≤◌, ◌≡◌, ◌≢◌, Bool, true, false, Option, none, some, List, [], ◌∷◌, if◌then◌else◌, arith,
  ◌⊎◌, not, ◌&&◌,
}
use Prim.Native.String.{String}
use text.Mathlib.Text.{◌==◌ as str_eq}
use text.Mathlib.TextEquality.{eq_iff}

-- A member of the struct: its width, and its name unless it is skipped.
pub data Item : Type 0 where
  skip : ℕ → Item
  field : String → ℕ → Item

abbrev pub Layout : Type 0
Layout = List Item

abbrev pub width : Item → ℕ
width (skip w) = w
width (field name w) = w

abbrev pub bits : Layout → ℕ
bits [] = 0
bits (x ∷ xs) = width x + bits xs

-- Where a field lies: the number of bits below it, and its own.
pub record Position : Type 0 where
  pub low : ℕ
  pub size : ℕ

unfoldable pub position : String → Layout → Option Position
position name [] = none
position name (skip w ∷ xs) = position name xs
position name (field f w ∷ xs) =
    if str_eq f name then some (record { low = bits xs; size = w }) else position name xs

abbrev pub is_some : Option Position → Bool
is_some (some p) = true
is_some none = false

-- Does the name of each field occur once?
unfoldable pub names_distinct : Layout → Bool
names_distinct [] = true
names_distinct (skip w ∷ xs) = names_distinct xs
names_distinct (field f w ∷ xs) = not (is_some (position f xs)) && names_distinct xs

-- The members fill a byte, under names of their own.
pub record IsByte (l : Layout) : Type 0 where
  pub full : bits l ≡ 8
  pub distinct : names_distinct l ≡ true

pub position_within :
    (name : String) (l : Layout) (p : Position) → position name l ≡ some p → p.low + p.size ≤ bits l
unfolding position
position_within name [] p e = absurd (ground arith)
position_within name (skip w ∷ xs) p e = omega (arith, position_within name xs p e)
position_within name (field f w ∷ xs) p e = ground (arith, position_within name xs p)

-- Fields of two names share no bit.
pub position_disjoint :
    (f g : String) (l : Layout) (p q : Position)
    → f ≢ g
    → position f l ≡ some p
    → position g l ≡ some q
    → (p.low + p.size ≤ q.low) ⊎ (q.low + q.size ≤ p.low)
unfolding position
position_disjoint f g [] p q ne e k = absurd (ground arith)
position_disjoint f g (skip w ∷ xs) p q ne e k = position_disjoint f g xs p q ne e k
position_disjoint f g (field h w ∷ xs) p q ne e k = ground (
  arith,
  eq_iff h f,
  eq_iff h g,
  position_within f xs p,
  position_within g xs q,
  position_disjoint f g xs p q,
)
