-- ===== src/Device/Access/Script.antt =====
-- What a sequence of register accesses does, as a list of its steps: the description that the
-- configuration of the firmware is compared with. It says nothing of accessors, bit fields or the
-- layout of the code.
use tedium.Common.{
  ℕ, ◌<◌, lt→ltb, List, [], ◌∷◌, ◌++◌, u8, bit_and, bit_or, ◌≡◌, refl, ap, ap₂, ◌∙◌, sym, arith,
  All,
}
use mathlib.Core.Path.{fun_ext}
use tedium.Common.Outcome.{Outcome, ok}
use tedium.Device.Access.{
  Action, Xyz, Run, done, failed, panicked, after, ◌>>=◌, ◌>>◌, pure, read, set_typed, write,
  modify, for_each, at_address,
}

pub data Step : Type 0 where
  -- a byte is written to an address
  store : (address value : ℕ) → Step
  -- a register keeps the bits of a mask and gets those of a byte
  alter : (address keep value : ℕ) → Step
  -- a register is read, and what was read is ignored
  poll : (address : ℕ) → Step

module _ {S : Type 0} (device : Xyz S) where
  unfoldable pub play_step : Step → Action S (Unit {0})
  play_step (store a v) = device.register_write a v
  play_step (alter a keep v) =
      device.register_read a >>= λ old. device.register_write a (bit_or (bit_and (u8 old) keep) v)
  play_step (poll a) = device.register_read a >>= λ _. pure tt

  -- The steps in order, up to the first that fails.
  unfoldable pub play : List Step → Action S (Unit {0})
  play [] = pure tt
  play (x ∷ xs) = play_step x >> play xs

unfoldable pub concat_map : (ℕ → List Step) → List ℕ → List Step
concat_map f [] = []
concat_map f (x ∷ xs) = f x ++ concat_map f xs

after_assoc :
    {S A B C : Type 0} (r : Run S A) (k : A → Action S B) (l : B → Action S C)
    → after (after r k) l ≡ after r (λ a. k a >>= l)
unfolding ◌>>=◌
after_assoc (done a s) k l = refl
after_assoc (failed s) k l = refl
after_assoc (panicked p) k l = refl

pub >>=-assoc :
    {S A B C : Type 0} (m : Action S A) (k : A → Action S B) (l : B → Action S C)
    → ((m >>= k) >>= l) ≡ (m >>= λ a. k a >>= l)
unfolding ◌>>=◌
>>=-assoc m k l = fun_ext (λ s. after_assoc (m s) k l)

after-pure : {S : Type 0} (r : Run S (Unit {0})) → after r (λ _. pure tt) ≡ r
after-pure (done tt s) = refl
after-pure (failed s) = refl
after-pure (panicked p) = refl

pub >>-pure : {S : Type 0} (m : Action S (Unit {0})) → (m >> pure tt) ≡ m
unfolding ◌>>=◌
>>-pure m = fun_ext (λ s. after-pure (m s))

play-append :
    {S : Type 0} (device : Xyz S) (xs ys : List Step)
    → play device (xs ++ ys) ≡ (play device xs >> play device ys)
unfolding play
play-append device [] ys = unfold ◌>>=◌ in refl
play-append device (x ∷ xs) ys =
    ap (λ k. play_step device x >> k) (play-append device xs ys)
    ∙ sym (>>=-assoc (play_step device x) (λ _. play device xs) (λ _. play device ys))

at_address-ok :
    {S A : Type 0} (a : ℕ) (access : ℕ → Action S A)
    → a < 0x10000
    → at_address (ok a) access ≡ access a
at_address-ok a access l = fun_ext (λ s. rw (lt→ltb a 0x10000 l, at_address) refl)

pure->>= : {S A B : Type 0} (a : A) (k : A → Action S B) → (pure a >>= k) ≡ k a
unfolding ◌>>=◌
pure->>= a k = refl

-- An access does to any chip what a step says.
pub record DoesStep {S : Type 0} (device : Xyz S) (m : Action S (Unit {0})) (x : Step)
    : Type 0 where
  pub plays : m ≡ play_step device x

-- An action does to any chip what a script says.
pub record Does {S : Type 0} (device : Xyz S) (m : Action S (Unit {0})) (xs : List Step)
    : Type 0 where
  pub plays : m ≡ play device xs

pub nothing-Does : {S : Type 0} (device : Xyz S) → Does device (pure tt) []
unfolding play
nothing-Does device = record { plays = refl }

pub then-Does :
    {S : Type 0} (device : Xyz S) (m k : Action S (Unit {0})) (x : Step) (xs : List Step)
    → DoesStep device m x
    → Does device k xs
    → Does device (m >> k) (x ∷ xs)
unfolding play
then-Does device m k x xs d e = record { plays = ap₂ (λ m k. m >> k) d.plays e.plays }

pub last-Does :
    {S : Type 0} (device : Xyz S) (m : Action S (Unit {0})) (x : Step)
    → DoesStep device m x
    → Does device m (x ∷ [])
unfolding play
last-Does device m x d = record { plays = d.plays ∙ sym (>>-pure (play_step device x)) }

pub append-Does :
    {S : Type 0} (device : Xyz S) (m k : Action S (Unit {0})) (xs ys : List Step)
    → Does device m xs
    → Does device k ys
    → Does device (m >> k) (xs ++ ys)
append-Does device m k xs ys d e = record {
  plays = ap₂ (λ m k. m >> k) d.plays e.plays ∙ sym (play-append device xs ys);
}

pub end-Does :
    {S : Type 0} (device : Xyz S) (m : Action S (Unit {0})) (xs : List Step)
    → Does device m xs
    → Does device (m >> pure tt) xs
end-Does device m xs d = record { plays = >>-pure m ∙ d.plays }

pub for_each-Does :
    {S : Type 0} (device : Xyz S) (xs : List ℕ) (body : ℕ → Action S (Unit {0})) (f : ℕ → List Step)
    → All (λ x. Does device (body x) (f x)) xs
    → Does device (for_each xs body) (concat_map f xs)
unfolding for_each concat_map
for_each-Does device [] body f h = nothing-Does device
for_each-Does device (x ∷ xs) body f (h, hs) =
    append-Does device (body x) (for_each xs body) (f x) (concat_map f xs) h
      (for_each-Does device xs body f hs)

module _ {S : Type 0} (device : Xyz S) {address : Outcome ℕ} (a : ℕ) (e : address ≡ ok a) where
  module _ (l : a < 0x10000) where
    read->>= :
        {B : Type 0} (k : ℕ → Action S B)
        → (read device address >>= k) ≡ (device.register_read a >>= λ v. k (u8 v))
    unfolding read
    read->>= k =
        rw (e, at_address-ok a (λ b. device.register_read b >>= λ v. pure (u8 v)) l)
          (>>=-assoc (device.register_read a) (λ v. pure (u8 v)) k
            ∙ ap (λ f. device.register_read a >>= f) (fun_ext (λ v. pure->>= (u8 v) k)))

    set_typed-store : (v : ℕ) → set_typed device address v ≡ device.register_write a v
    unfolding set_typed
    set_typed-store v = rw e (at_address-ok a (λ b. device.register_write b v) l)

    pub write-DoesStep :
        (f : ℕ → ℕ) (v : ℕ) → f 0 ≡ v → DoesStep device (write device address f) (store a v)
    unfolding write play_step
    write-DoesStep f v h = record { plays = rw h (set_typed-store v) }

    pub read-DoesStep : DoesStep device (read device address >>= λ _. pure tt) (poll a)
    unfolding play_step
    read-DoesStep = record { plays = read->>= (λ _. pure tt) }

    pub modify-DoesStep :
        (f : ℕ → ℕ) (keep v : ℕ)
        → ((old : ℕ) → old < 256 → f old ≡ bit_or (bit_and old keep) v)
        → DoesStep device (modify device address f) (alter a keep v)
    unfolding modify play_step
    modify-DoesStep f keep v h = record {
      plays =
          read->>= (λ old. set_typed device address (f old))
          ∙ ap (λ k. device.register_read a >>= k)
              (fun_ext (λ old.
                set_typed-store (f (u8 old))
                ∙ ap (device.register_write a) (h (u8 old) (omega arith))));
    }
