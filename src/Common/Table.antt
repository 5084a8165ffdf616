-- ===== src/Common/Table.antt =====
-- Over a small range, a Boolean test is checked at every value by evaluation.
use Prim.Native.Nat.{ℕ, zero, suc, ◌<◌}
use mathlib.Core.Path.{◌≡◌}
use mathlib.Core.Bool.{Bool, true, ◌&&◌}
use native.Mathlib.Omega.{arith}

unfoldable pub all_below : ℕ → (ℕ → Bool) → Bool
all_below (suc bound) test = test bound && all_below bound test
all_below zero test = true

pub all_below_sound :
    (bound : ℕ) (test : ℕ → Bool) (k : ℕ) → all_below bound test ≡ true → k < bound → test k ≡ true
unfolding all_below
all_below_sound (suc bound) test k passed small = ground (arith, all_below_sound bound test k)
all_below_sound zero test k passed small = absurd (omega arith)
