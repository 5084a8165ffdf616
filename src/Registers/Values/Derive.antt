-- ===== src/Registers/Values/Derive.antt =====
-- What `#[derive(BitfieldSpecifier)]` and `#[bits=…]` give for an enumeration: the width of its
-- fields and the discriminants that its values are stored by.
use tedium.Common.{ℕ}

pub record Specifier (A : Type 0) : Type 0 where
  pub width : ℕ
  pub discriminant : A → ℕ

-- The number that a setter stores for a value.
abbrev pub value : {A : Type 0} ⦃e : Specifier A⦄ → A → ℕ
value ⦃e⦄ v = e.discriminant v
