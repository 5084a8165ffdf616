-- ===== src/Signaling/Settle.antt =====
-- A channel's state over whole superframes.
use tedium.Common.{
  ℕ, zero, suc, ◌+◌, ◌*◌, ◌^◌, ◌<◌, ◌≡◌, refl, ap, sym, ◌∙◌, true, false, ◌==◌, List, [], arith,
  if◌then◌else◌,
}
use tedium.Signaling.{
  InternalFrame, RobbedBitFrame, RobbedBitDebouncer, Change, settled, changes, accept, debounce,
  signal, mf, process_frame, from_timestamp,
}
use tedium.Signaling.Superframe.{Follow, bit, receive, receive-superframe}

-- The debouncer after the frames before the `k`th, and the changes at the last of them.
pub signals : RobbedBitDebouncer → (ℕ → InternalFrame) → ℕ → ℕ → RobbedBitDebouncer × List Change
signals d frames c zero = (d, [])
signals d frames c (suc k) = signal (signals d frames c k).0 (frames k) c

-- The frames of a superframe of channel `c`: the counts follow on, and the first is marked.
pub record IsSuperframe (start : ℕ) (frames : ℕ → InternalFrame) (c : ℕ) : Type 0 where
  pub below : start < 2 ^ 32
  pub follow : Follow start frames
  pub marked : (k : ℕ) → k < 24 → mf (frames k) c ≡ (k == 0)

-- The debouncer with what was received so far.
abbrev with_accumulator : RobbedBitDebouncer → RobbedBitFrame → RobbedBitDebouncer
with_accumulator d accumulator = record {
  state = d.state;
  accumulator = accumulator;
  history = d.history;
}

debounce_incomplete :
    (d : RobbedBitDebouncer) (f : InternalFrame) (c : ℕ)
    → (process_frame d.accumulator f c).0 ≡ false
    → debounce d f c ≡ (with_accumulator d (process_frame d.accumulator f c).1, [])
unfolding debounce
debounce_incomplete d f c e = rw e refl

debounce_complete :
    (d : RobbedBitDebouncer) (f : InternalFrame) (c : ℕ)
    → (process_frame d.accumulator f c).0 ≡ true
    → debounce d f c ≡ (
        let next = with_accumulator d (process_frame d.accumulator f c).1 in
        (accept next, changes next c 0 24))
unfolding debounce
debounce_complete d f c e = rw e refl

accept-state :
    (d : RobbedBitDebouncer) (i : ℕ)
    → (accept d).state.timeslot i ≡ (
        if d.accumulator.timeslot i == d.history.timeslot i
        then d.accumulator.timeslot i
        else d.state.timeslot i)
unfolding accept settled
accept-state d i = ground arith

-- Its four bits of timeslot `i`.
abbrev pub abcd : (ℕ → InternalFrame) → ℕ → ℕ → ℕ
abcd frames c i =
    bit (frames 5) c i * 8 + bit (frames 11) c i * 4 + bit (frames 17) c i * 2 + bit (frames 23) c i

module _ (start : ℕ) (frames : ℕ → InternalFrame) (c : ℕ) (h : IsSuperframe start frames c) where
  flag : (k : ℕ) → k < 24 → (receive start frames c (suc k)).0 ≡ (k == 23)
  flag k l = (receive-superframe start h.below frames c h.follow k 0 l).0

  signals-partial :
      (d : RobbedBitDebouncer) (k : ℕ)
      → k < 23
      → signals d frames c (suc k) ≡ (with_accumulator d (receive start frames c (suc k)).1, [])
  unfolding signals signal receive
  signals-partial d zero l =
      let first : (frames 0).frame_count ≡ start = omega (arith, h.follow 0, h.below) in
      rw (h.marked 0 (omega arith)) (
        ap (λ (n : ℕ). debounce (with_accumulator d (from_timestamp n)) (frames 0) c) first
        ∙ debounce_incomplete (with_accumulator d (from_timestamp start)) (frames 0) c
            (flag 0 (omega arith)))
  signals-partial d (suc k) l =
      let so_far = receive start frames c (suc k) in
      let unmarked : mf (frames (suc k)) c ≡ false =
        ground (arith, h.marked (suc k) (omega arith)) in
      let going : (suc k == 23) ≡ false = ground arith in
      rw (signals-partial d k (omega arith), unmarked)
        (debounce_incomplete (with_accumulator d so_far.1) (frames (suc k)) c
          (flag (suc k) (omega arith) ∙ going))

  -- The debouncer with the whole superframe.
  abbrev full : RobbedBitDebouncer → RobbedBitDebouncer
  full d = with_accumulator d (receive start frames c 24).1

  pub signals-superframe :
      (d : RobbedBitDebouncer) → signals d frames c 24 ≡ (accept (full d), changes (full d) c 0 24)
  unfolding signals signal receive
  signals-superframe d =
      let so_far = receive start frames c 23 in
      let unmarked : mf (frames 23) c ≡ false = ground (arith, h.marked 23 (omega arith)) in
      rw (signals-partial d 22 (omega arith), unmarked)
        (debounce_complete (with_accumulator d so_far.1) (frames 23) c (flag 23 (omega arith)))

  signals-history :
      (d : RobbedBitDebouncer) (i : ℕ)
      → (signals d frames c 24).0.history.timeslot i ≡ abcd frames c i
  unfolding accept
  signals-history d i =
      rw (signals-superframe d)
        ((receive-superframe start h.below frames c h.follow 0 i (omega arith)).1)

  signals-state :
      (d : RobbedBitDebouncer) (i : ℕ)
      → (signals d frames c 24).0.state.timeslot i
        ≡ (if abcd frames c i == d.history.timeslot i then abcd frames c i else d.state.timeslot i)
  signals-state d i =
      rw
        (
          signals-superframe d,
          accept-state (full d) i,
          (receive-superframe start h.below frames c h.follow 0 i (omega arith)).1,
        )
        refl

-- Two whole superframes of channel `c`, one after the other. A timeslot that has the same four
-- bits in both ends up in that state, whatever it was; one whose bits differ keeps the state that
-- the first superframe left it in. No frame but the last of each reports a change.
pub signals-twice :
    (d : RobbedBitDebouncer) (start start' : ℕ) (frames frames' : ℕ → InternalFrame) (c i k : ℕ)
    → IsSuperframe start frames c
    → IsSuperframe start' frames' c
    → k < 23
    → let once = (signals d frames c 24).0 in
      let twice = (signals once frames' c 24).0 in
      (twice.state.timeslot i
        ≡ (if abcd frames' c i == abcd frames c i then abcd frames' c i else once.state.timeslot i))
      × ((signals d frames c (suc k)).1 ≡ [])
      × ((signals once frames' c (suc k)).1 ≡ [])
signals-twice d start start' frames frames' c i k h h' l =
    let once = (signals d frames c 24).0 in
    (
      rw (sym (signals-history start frames c h d i)) (signals-state start' frames' c h' once i),
      ap (λ r. r.1) (signals-partial start frames c h d k l),
      ap (λ r. r.1) (signals-partial start' frames' c h' once k l),
    )
