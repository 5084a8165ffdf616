-- ===== src/Float.antt =====
-- The floating-point numbers that the detectors, the tone generators and the codec compute with:
-- `f32` and its methods, and the `Complex<f32>` of the crate num_complex. The
-- interface assumes nothing of the operations; the bit patterns of IEEE arithmetic are not modelled.
pub mod Integers
use Prim.Native.Nat.{Ordering}
use tedium.Common.{ℕ, Bool, true, false, Option, none, some, ◌&&◌}
use tedium.Common.Int.{ℤ}

pub record Float : Type 1 where
  pub F : Type 0
  -- the literal `n / d`
  pub lit : ℤ → ℕ → F
  pub tau : F
  pub add : F → F → F
  pub sub : F → F → F
  pub mul : F → F → F
  pub div : F → F → F
  pub neg : F → F
  pub rem : F → F → F
  pub sin : F → F
  pub cos : F → F
  pub log10 : F → F
  pub round : F → F
  pub clamp : F → F → F → F
  -- `x as i16` and `n as f32`
  pub to_i16 : F → ℤ
  pub of_int : ℤ → F
  -- `none` where one of the two is not a number
  pub partial_cmp : F → F → Option Ordering
  pub Complex : Type 0
  pub c_new : F → F → Complex
  pub c_exp : Complex → Complex
  pub c_neg : Complex → Complex
  pub mul_complex : F → Complex → Complex
  pub add_complex : F → Complex → Complex
  pub norm : Complex → F

abbrev is_lt : Option Ordering → Bool
is_lt (some Ordering.lt) = true
is_lt _ = false

abbrev is_le : Option Ordering → Bool
is_le (some Ordering.lt) = true
is_le (some Ordering.eq) = true
is_le _ = false

module _ (fl : Float) where
  open fl use {F, partial_cmp}

  -- `a < b`, `a <= b` and `(lo..=hi).contains(&x)`.
  abbrev pub lt_f32 : F → F → Bool
  lt_f32 a b = is_lt (partial_cmp a b)

  abbrev pub le_f32 : F → F → Bool
  le_f32 a b = is_le (partial_cmp a b)

  abbrev pub contains : F → F → F → Bool
  contains lo hi x = le_f32 lo x && le_f32 x hi
