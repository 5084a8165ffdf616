-- ===== src/Signaling/Continuity.antt =====
-- The monitor of lost frames counts exactly those that are missing.
use tedium.Common.{
  ℕ, ◌+◌, ◌%◌, ◌^◌, ◌<◌, ◌≡◌, ◌≢◌, All, length, List, [], ◌∷◌, Option, none, some, arith,
}
use tedium.Signaling.{update, wrapping_sub}

abbrev pub or_zero : Option ℕ → ℕ
or_zero none = 0
or_zero (some n) = n

-- The missing frames that the monitor reports for the frame counts that arrive.
pub missing : ℕ → List ℕ → ℕ
missing last [] = 0
missing last (n ∷ ns) = or_zero (update last n).0 + missing (update last n).1 ns

-- The frame count that arrived last.
abbrev pub final : ℕ → List ℕ → ℕ
final last [] = last
final last (n ∷ ns) = final n ns

-- A frame count of 32 bits; 0 makes the monitor start afresh.
abbrev pub IsCount : ℕ → Type 0
IsCount n = (n ≢ 0) × (n < 2 ^ 32)

update-counts :
    (last n : ℕ) → IsCount last → n < 2 ^ 32 → (last + 1 + or_zero (update last n).0) % 2 ^ 32 ≡ n
unfolding update wrapping_sub
update-counts last n h k = ground (arith, h)

-- From a nonzero last count on, over frame counts that are not zero, that last count, the number of
-- frames that arrived and the missing frames reported add up to the count that arrived last, modulo
-- 2 ^ 32.
pub missing-counts :
    (ns : List ℕ) (last : ℕ)
    → IsCount last
    → All IsCount ns
    → (last + length ns + missing last ns) % 2 ^ 32 ≡ final last ns
unfolding missing update
missing-counts [] last h hs = omega arith
missing-counts (n ∷ ns) last h (k, ks) =
    omega (arith, missing-counts ns n k ks, update-counts last n h k.1)
