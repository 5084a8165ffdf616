-- ===== src/Device/Iterators.antt =====
-- The iterators `Timeslots` of a channel and `Channels` of the device (xrt86vx38-pac/src/device.rs):
-- a count of what was given, up to a bound.
mod Tests
use tedium.Common.{
  ℕ, zero, suc, ◌+◌, ◌≤◌, ◌<◌, ◌≡◌, refl, ltb, if◌then◌else◌, Option, none, some, List, [], ◌∷◌,
  arith, All, range, All-range, ap, ◌∙◌,
}
use tedium.Common.Outcome.{Outcome, ok, panic, ◌>>=◌, ◌>>◌, assert}
use tedium.Device.Addressing.{channels_count, timeslots_count}

-- `Channel::new`, with its assertion.
unfoldable pub new_channel : ℕ → Outcome ℕ
new_channel index = do assert (ltb index channels_count); ok index

-- `Timeslots::next` and `Channels::next`: the next index, and the iterator after it.
unfoldable pub next_timeslot : ℕ → Outcome (Option (ℕ × ℕ))
next_timeslot n = if ltb n timeslots_count then ok (some (n, suc n)) else ok none

unfoldable pub next_channel : ℕ → Outcome (Option (ℕ × ℕ))
unfolding new_channel
next_channel n =
    if ltb n channels_count then (do c ← new_channel n; ok (some (c, suc n))) else ok none

abbrev given : ℕ → Outcome (Option (List ℕ)) → Outcome (Option (List ℕ))
given i (ok (some rest)) = ok (some (i ∷ rest))
given i (ok none) = ok none
given i (panic p) = panic p

-- What a `for` loop takes from an iterator; `ok none` means that it is not at its end yet.
unfoldable pub drain :
    (next : ℕ → Outcome (Option (ℕ × ℕ))) (fuel n : ℕ) → Outcome (Option (List ℕ))
drain next zero n = ok none
drain next (suc fuel) n = next n >>= λ step. elim step [
  | none ↦ ok (some [])
  | some (i, n') ↦ given i (drain next fuel n')
]

-- An iterator that gives each index below a bound and then ends.
abbrev CountsTo : ℕ → (ℕ → Outcome (Option (ℕ × ℕ))) → Type 0
CountsTo count next = (n : ℕ) → next n ≡ (if ltb n count then ok (some (n, suc n)) else ok none)

drain-range_rest :
    (count : ℕ) (next : ℕ → Outcome (Option (ℕ × ℕ)))
    → CountsTo count next
    → (fuel k n : ℕ) → n + k ≡ count
    → k < fuel
    → drain next fuel n ≡ ok (some (range n k))
unfolding drain range
drain-range_rest count next h zero k n e l = absurd (omega arith)
drain-range_rest count next h (suc fuel) zero n e l =
    let stop : next n ≡ ok none = ground (arith, h n) in rw stop refl
drain-range_rest count next h (suc fuel) (suc k) n e l =
    let go : next n ≡ ok (some (n, suc n)) = ground (arith, h n) in
    rw go (ap (given n) (drain-range_rest count next h fuel k (suc n) (omega arith) (omega arith)))

next_timeslot-CountsTo : CountsTo 24 next_timeslot
unfolding next_timeslot
next_timeslot-CountsTo n = ground arith

next_channel-CountsTo : CountsTo 8 next_channel
unfolding next_channel
next_channel-CountsTo n = ground arith

-- A loop over the timeslots of a channel and one over the channels end, the first after 24 rounds
-- and the second after 8, without a panic, whatever more rounds they might take; they are given
-- the indices from 0 on, in order.
pub drain-range :
    (more : ℕ)
    → (drain next_timeslot (25 + more) 0 ≡ ok (some (range 0 24)))
      × (drain next_channel (9 + more) 0 ≡ ok (some (range 0 8)))
drain-range more = (
  drain-range_rest 24 next_timeslot next_timeslot-CountsTo (25 + more) 24 0 refl (omega arith),
  drain-range_rest 8 next_channel next_channel-CountsTo (9 + more) 8 0 refl (omega arith),
)

-- What the loops of the program run over.
abbrev pub timeslots : List ℕ
timeslots = range 0 timeslots_count

abbrev pub channels : List ℕ
channels = range 0 channels_count

pub All-timeslots {ℓ} : (P : ℕ → Type ℓ) → ((t : ℕ) → t < 24 → P t) → All P timeslots
All-timeslots P h = All-range P 0 24 (λ t _ l. h t (omega arith))

pub All-channels {ℓ} : (P : ℕ → Type ℓ) → ((c : ℕ) → c < 8 → P c) → All P channels
All-channels P h = All-range P 0 8 (λ c _ l. h c (omega arith))
