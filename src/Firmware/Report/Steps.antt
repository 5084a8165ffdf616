-- ===== src/Firmware/Report/Steps.antt =====
-- The single steps of the report, and its loops.
use tedium.Common.{ℕ, zero, suc, ◌+◌, ◌<◌, ◌≡◌, refl, [], ◌∷◌, length, arith, All}
use tedium.Common.Outcome.{Outcome, ok}
use tedium.Device.Accessors.Tables.{Reaches}
use tedium.Firmware.Effect.{
  Bus, lift, write_fifo, read_register, Emits, >>=-Emits, weaken-Emits, write_fifo-Emits,
  read_register-Emits,
}
use tedium.Firmware.Report.{evens, forward}

pub All-evens :
    (P : ℕ → Type 0) (k n : ℕ) → ((i : ℕ) → suc i < k + (n + n) → P i) → All P (evens k n)
unfolding evens
All-evens P k zero p = tt
All-evens P k (suc n) p =
    (p k (omega arith), All-evens P (suc (suc k)) n (λ i u. p i (omega arith)))

pub length-evens : (k n : ℕ) → length (evens k n) ≡ n
unfolding evens
length-evens k zero = refl
length-evens k (suc n) = rw (length-evens (suc (suc k)) n) refl

pub lift-Emits :
    (S : Type 0) {A : Type 0} (o : Outcome A) (a : A)
    → o ≡ ok a
    → Emits {S = S} (lift o) (λ b out. (b ≡ a) × (out ≡ []))
unfolding Emits lift
lift-Emits S o a e s = (a, [], s, rw e refl, (refl, refl))

module _ (S : Type 0) (bus : Bus S) where
  pub forward-Emits :
      (address : Outcome ℕ)
      → Reaches address
      → Emits (forward bus address) (λ _ out. (b : ℕ) × (b < 256) × (out ≡ b ∷ []))
  unfolding forward
  forward-Emits address (a, e, l_a) =
      >>=-Emits S (read_register bus address) _ _ _ (read_register-Emits S bus address a (e, l_a))
        (λ v out (l, f).
          rw f (weaken-Emits S (write_fifo v) _ _ (write_fifo-Emits S v) (λ _ out g. (v, l, g))))
