-- ===== src/Device/Access.antt =====
-- The typed access to a register (`Access` of xrt86vx38-pac/src/device.rs) over a chip that is a
-- parameter: the trait `Xyz`, whose reads and writes may fail and may change the chip. What a read
-- or a write does is an action; its error ends it, as the operator `?` does.
pub mod Script
pub mod Typed
pub mod Steps
pub mod Memory
use tedium.Common.{ℕ, zero, suc, ◌<◌, ltb, true, List, [], ◌∷◌, u8, Option, none, some}
use tedium.Common.Outcome.{Outcome, ok, panic, Panic, assertion}

-- How an action ends: with a value, with an error of the chip, or by a panic.
pub data Run (S A : Type 0) : Type 0 where
  done : A → S → Run S A
  failed : S → Run S A
  panicked : Panic → Run S A

abbrev pub Action : Type 0 → Type 0 → Type 0
Action S A = S → Run S A

abbrev pub after : {S A B : Type 0} → Run S A → (A → Action S B) → Run S B
after (done a s) k = k a s
after (failed s) k = failed s
after (panicked p) k = panicked p

infixl 5 ◌>>=◌ ◌>>◌
unfoldable pub ◌>>=◌ : {S A B : Type 0} → Action S A → (A → Action S B) → Action S B
(m >>= k) s = after (m s) k

abbrev pub ◌>>◌ : {S B : Type 0} → Action S (Unit {0}) → Action S B → Action S B
m >> k = m >>= λ _. k

abbrev pub pure : {S A : Type 0} → A → Action S A
pure a s = done a s

-- The trait `Xyz` (`DeviceAccess` in the firmware).
pub record Xyz (S : Type 0) : Type 0 where
  pub register_read : ℕ → Action S ℕ
  pub register_write : ℕ → ℕ → Action S (Unit {0})

-- `assert!(address < 0x10000)` of `get_typed` and `set_typed`, on an address whose making may panic.
abbrev pub at_address : {S A : Type 0} → Outcome ℕ → (ℕ → Action S A) → Action S A
at_address (ok a) access s = elim (ltb a 0x10000) [ true ↦ access a s | _ ↦ panicked assertion ]
at_address (panic p) access s = panicked p

module _ {S : Type 0} (device : Xyz S) where
  -- `T::from(self.device.register_read(…)?)`; a register is a byte.
  unfoldable pub read : Outcome ℕ → Action S ℕ
  read address = at_address address λ a. device.register_read a >>= λ v. pure (u8 v)

  -- `self.device.register_write(…, value.into())`.
  unfoldable pub set_typed : Outcome ℕ → ℕ → Action S (Unit {0})
  set_typed address v = at_address address λ a. device.register_write a v

  -- `write(f)`: the register becomes what `f` makes of 0.
  unfoldable pub write : Outcome ℕ → (ℕ → ℕ) → Action S (Unit {0})
  write address f = set_typed address (f 0)

  -- `modify(f)`: the register becomes what `f` makes of its value.
  unfoldable pub modify : Outcome ℕ → (ℕ → ℕ) → Action S (Unit {0})
  modify address f = read address >>= λ v. set_typed address (f v)

-- `for x in xs { body(x)?; }`.
unfoldable pub for_each : {S : Type 0} → List ℕ → (ℕ → Action S (Unit {0})) → Action S (Unit {0})
for_each [] body = pure tt
for_each (x ∷ xs) body = body x >> for_each xs body
