-- ===== src/Registers/Bitfield.antt =====
-- The getters and setters that the crate modular_bitfield_msb generates for a register. The crate
-- is not part of the repository: they are parameters, with the documented law that a field is read
-- from and written to its place in the byte, the first member at the most significant bit.
use tedium.Common.{ℕ, ◌+◌, ◌*◌, ◌/◌, ◌%◌, ◌^◌, ◌<◌, ◌≡◌, refl, Option, none, some}
use Prim.Native.String.{String}
use tedium.Registers.Layout.{Layout, Position, position}

pub record Bitfield : Type 0 where
  -- the field of `size` bits above the `low` lowest bits of a byte
  pub get : (low size byte : ℕ) → ℕ
  pub get_lem : (low size byte : ℕ) → get low size byte ≡ byte / 2 ^ low % 2 ^ size
  -- the byte with that field set to a value
  pub set : (low size value byte : ℕ) → ℕ
  pub set_lem :
      (low size value byte : ℕ)
      → value < 2 ^ size
      → set low size value byte
        ≡ byte / 2 ^ low / 2 ^ size * 2 ^ size * 2 ^ low + value * 2 ^ low + byte % 2 ^ low

abbrev get_at : Bitfield → Option Position → ℕ → ℕ
get_at bf (some p) byte = bf.get p.low p.size byte
-- no call names a field that its register lacks
get_at bf none byte = 0

-- `register.NAME()` on a byte.
unfoldable pub get_field : Bitfield → Layout → String → ℕ → ℕ
unfolding position
get_field bf layout name byte = get_at bf (position name layout) byte

abbrev set_at : Bitfield → Option Position → ℕ → ℕ → ℕ
set_at bf (some p) value byte = bf.set p.low p.size value byte
-- no call names a field that its register lacks
set_at bf none value byte = byte

-- `register.with_NAME(value)` on a byte.
unfoldable pub with_field : Bitfield → Layout → String → ℕ → ℕ → ℕ
unfolding position
with_field bf layout name value byte = set_at bf (position name layout) value byte

-- A value that meets the law.
abbrev pub arithmetic : Bitfield
arithmetic = record {
  get = λ low size byte. byte / 2 ^ low % 2 ^ size;
  get_lem = λ low size byte. refl;
  set = λ low size value byte.
      byte / 2 ^ low / 2 ^ size * 2 ^ size * 2 ^ low + value * 2 ^ low + byte % 2 ^ low;
  set_lem = λ low size value byte h. refl;
}
