-- ===== src/Common/Outcome.antt =====
-- Results of code that may panic, with the kind of the panic.
use mathlib.Core.Path.{◌≡◌, refl}
use mathlib.Core.Bool.{Bool, true, false}

pub data Panic : Type 0 where
  -- a failed `assert!` or `debug_assert!`
  assertion : Panic
  -- `unreachable!()`
  unreachable : Panic
  -- `unwrap()` of a `None` or an `Err`
  unwrap : Panic
  -- an index out of bounds
  out_of_bounds : Panic
  -- an arithmetic overflow
  overflow : Panic

pub data Outcome {ℓ} (A : Type ℓ) : Type ℓ where
  ok : A → Outcome A
  panic : Panic → Outcome A

infixl 5 ◌>>=◌ ◌>>◌
abbrev pub ◌>>=◌ {ℓ κ} : {A : Type ℓ} {B : Type κ} → Outcome A → (A → Outcome B) → Outcome B
panic reason >>= next = panic reason
ok value >>= next = next value

abbrev pub ◌>>◌ {ℓ} : {B : Type ℓ} → Outcome (Unit {0}) → Outcome B → Outcome B
first >> second = first >>= λ _. second

-- `assert!(b)`.
abbrev pub assert : Bool → Outcome (Unit {0})
assert true = ok tt
assert false = panic assertion

-- What a run that ends in a value went through.
pub >>=-eq-ok {ℓ κ} :
    {A : Type ℓ} {B : Type κ} (first : Outcome A) (next : A → Outcome B) {result : B}
    → (first >>= next) ≡ ok result
    → (value : A) × (first ≡ ok value) × (next value ≡ ok result)
>>=-eq-ok (panic reason) next run = cc
>>=-eq-ok (ok value) next run = (value, refl, run)

pub >>=-ok {ℓ κ} :
    {A : Type ℓ} {B : Type κ} {m : Outcome A} (f : A → Outcome B) {a : A} {b : B}
    → m ≡ ok a
    → f a ≡ ok b
    → (m >>= f) ≡ ok b
>>=-ok f e h = rw e h
