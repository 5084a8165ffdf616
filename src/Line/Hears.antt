-- ===== src/Line/Hears.antt =====
-- The monitor hears the changes of every channel: its lines keep the bits that the debouncers have
-- settled on.
use tedium.Common.{
  ℕ, zero, suc, ◌+◌, ◌<◌, ◌≤◌, ◌≡◌, ◌≢◌, refl, sym, ap, ◌∙◌, bit_and, ◌==◌, Bool-cases, inl, inr,
  List, [], ◌∷◌, ◌++◌, All, arith, if◌then◌else◌, true, ==_iff,
}
use tedium.Common.Outcome.{ok, >>=-eq-ok}
use tedium.Registers.Bitfield.{Bitfield}
use tedium.Audio.{timeslot, set_timeslot, in_bounds, replaced}
use tedium.Signaling.{
  TimeslotAddress, InternalFrame, RobbedBitDebouncer, Change, changes, debounce, signal, settled,
  process_frame,
}
use tedium.Signaling.Debounce.{hear, hear-signal}
use tedium.Signaling.Processor.{
  event_of, events_of, Channels, with_channel, signal_channels, FramerEvent,
}
use tedium.Line.{
  Monitor, Line, monitor, monitor_event, robbed_bit_event, set_robbed_bit_state,
  LineStateRobbedBitState, lines_of, robbed_bit_line,
}

-- The address of a change is a timeslot of the channel.
abbrev IsOn : ℕ → Change → Type 0
IsOn c x = (x.timeslot_address.channel ≡ c) × (x.timeslot_address.timeslot < 24)

changes-IsOn :
    (count : ℕ) (d : RobbedBitDebouncer) (c k : ℕ)
    → k + count ≤ 24
    → All (IsOn c) (changes d c k count)
unfolding changes
changes-IsOn zero d c k h = tt
changes-IsOn (suc count) d c k h = elim (Bool-cases (settled d k)) [
  | inl e ↦ rw e ((refl, omega arith), changes-IsOn count d c (suc k) (omega arith))
  | inr e ↦ rw e (changes-IsOn count d c (suc k) (omega arith))
]

debounce-IsOn :
    (d : RobbedBitDebouncer) (f : InternalFrame) (c : ℕ) → All (IsOn c) (debounce d f c).1
unfolding debounce
debounce-IsOn d f c = elim (Bool-cases (process_frame d.accumulator f c).0) [
  | inl e ↦ rw e (changes-IsOn 24 _ c 0 (omega arith))
  | inr e ↦ rw e tt
]

signal-IsOn : (d : RobbedBitDebouncer) (f : InternalFrame) (c : ℕ) → All (IsOn c) (signal d f c).1
unfolding signal
signal-IsOn d f c = debounce-IsOn _ f c

set_robbed_bit_state-abcd :
    (s : LineStateRobbedBitState) (n rbs : ℕ)
    → (set_robbed_bit_state s n rbs).0.abcd ≡ bit_and rbs 0x0f
unfolding set_robbed_bit_state
set_robbed_bit_state-abcd s n rbs = ground arith

-- The lines of a channel have the bits that a listener has.
abbrev Agrees : Monitor → ℕ → (ℕ → ℕ) → Type 0
Agrees m c view =
    (i : ℕ) → i < 24 → (m.line_state_robbed_bit_state i c).abcd ≡ bit_and (view i) 0x0f

abbrev OthersKept : Monitor → Monitor → ℕ → Type 0
OthersKept m m' c =
    (i c' : ℕ) → c' ≢ c → m'.line_state_robbed_bit_state i c' ≡ m.line_state_robbed_bit_state i c'

on_channel : (a : TimeslotAddress) (c : ℕ) → a.channel ≡ c → (a.channel == c) ≡ true
on_channel a c e = ground arith

module _ (bf : Bitfield) where
  event-Agrees :
      (x : Change) (m : Monitor) (c : ℕ) (view : ℕ → ℕ)
      → c < 8
      → IsOn c x
      → Agrees m c view
      → (m' : Monitor) × (out : List Line) × (monitor_event bf m (event_of x) ≡ ok (m', out))
        × Agrees m' c (λ j. if x.timeslot_address.timeslot == j then x.rbs_state else view j)
        × OthersKept m m' c
  unfolding monitor_event robbed_bit_event timeslot set_timeslot
  event-Agrees x m c view l (e, t) h =
      let a = x.timeslot_address in
      let table = m.line_state_robbed_bit_state in
      let line =
        (set_robbed_bit_state (table a.timeslot a.channel) x.timestamp_changed x.rbs_state).0 in
      let inside : in_bounds a ≡ true = ground arith in
      let abcd : line.abcd ≡ bit_and x.rbs_state 0x0f =
        set_robbed_bit_state-abcd (table a.timeslot a.channel) x.timestamp_changed x.rbs_state in
      (
        record m { line_state_robbed_bit_state = replaced table a line },
        lines_of (robbed_bit_line a)
            (set_robbed_bit_state (table a.timeslot a.channel) x.timestamp_changed x.rbs_state).1,
        rw inside refl,
        λ i u. elim (Bool-cases (a.timeslot == i)) [
          | inl same ↦ rw (same, on_channel a c e) abcd
          | inr other ↦ rw other (h i u)
        ],
        λ i c' n. ground (arith, n),
      )

  monitor-hear :
      (xs : List Change) (m : Monitor) (c : ℕ) (view : ℕ → ℕ)
      → c < 8
      → All (IsOn c) xs
      → Agrees m c view
      → (m' : Monitor) × (out : List Line) × (monitor bf m (events_of xs) ≡ ok (m', out))
        × Agrees m' c (hear view xs)
        × OthersKept m m' c
  unfolding monitor hear events_of
  monitor-hear [] m c view l on h = (m, [], refl, h, λ i c' n. refl)
  monitor-hear (x ∷ xs) m c view l (on, ons) h =
      let (m', out, e, h', k) = event-Agrees x m c view l on h in
      let (m'', more, e', h'', k') = monitor-hear xs m' c _ l ons h' in
      (m'', out ++ more, rw (e, e') refl, h'', λ i c' n. k' i c' n ∙ k i c' n)

  -- The events take the monitor from one state to another, without a panic.
  abbrev pub Leads : Monitor → List FramerEvent → Monitor → Type 0
  Leads m xs m' = (out : List Line) × (monitor bf m xs ≡ ok (m', out))

  cons-Leads :
      (x : FramerEvent) (xs : List FramerEvent) (m m1 m' : Monitor) (lines : List Line)
      → monitor_event bf m x ≡ ok (m1, lines)
      → Leads m1 xs m'
      → Leads m (x ∷ xs) m'
  unfolding monitor
  cons-Leads x xs m m1 m' lines step (out, e) = (lines ++ out, rw (step, e) refl)

  pub append-Leads :
      (xs ys : List FramerEvent) (m m' m'' : Monitor)
      → Leads m xs m'
      → Leads m' ys m''
      → Leads m (xs ++ ys) m''
  unfolding monitor
  append-Leads [] ys m m' m'' (out, e) (more, f) = let same : m ≡ m' = cc in (more, rw same f)
  append-Leads (x ∷ xs) ys m m' m'' (out, e) d =
      let ((m1, lines), step, rest) = >>=-eq-ok (monitor_event bf m x) _ e in
      let ((m2, lines'), run, same) = >>=-eq-ok (monitor bf m1 xs) _ rest in
      let here : m2 ≡ m' = cc in
      cons-Leads x (xs ++ ys) m m1 m'' lines step
        (append-Leads xs ys m1 m' m'' (lines', run ∙ ap (λ (t : Monitor). ok (t, lines')) here) d)

  -- The lines of every channel have the bits that its debouncer has settled on.
  abbrev pub Follows : Monitor → Channels → Type 0
  Follows m state = (c : ℕ) → c < 8 → Agrees m c (state c).state.timeslot

  Follows-with_channel :
      (m m' : Monitor) (state : Channels) (k : ℕ) (d : RobbedBitDebouncer)
      → Follows m state
      → Agrees m' k d.state.timeslot
      → OthersKept m m' k
      → Follows m' (with_channel state k d)
  Follows-with_channel m m' state k d h a others c l i u = elim (Bool-cases (k == c)) [
    | inl same ↦ rw (same, sym ((==_iff k c).0 same)) (a i u)
    | inr other ↦ rw (other, others i c (λ e. ground (arith, e))) (h c l i u)
  ]

  pub signal_channels-Follows :
      (count k : ℕ) (state : Channels) (f : InternalFrame) (m : Monitor)
      → k + count ≤ 8
      → Follows m state
      → (m' : Monitor) × Leads m (signal_channels state f k count).1 m'
        × Follows m' (signal_channels state f k count).0
  unfolding signal_channels monitor
  signal_channels-Follows zero k state f m l h = (m, ([], refl), h)
  signal_channels-Follows (suc count) k state f m l h =
      let (d, out) = signal (state k) f k in
      let (m1, lines, e, agrees, others) =
        monitor-hear out m k (state k).state.timeslot (omega arith) (signal-IsOn (state k) f k)
          (h k (omega arith)) in
      let settled_here : Agrees m1 k d.state.timeslot =
        λ i u. agrees i u ∙ ap (λ t. bit_and t 0x0f) (hear-signal (state k) f k i u) in
      let (m2, leads, follows) =
        signal_channels-Follows count (suc k) (with_channel state k d) f m1 (omega arith)
          (Follows-with_channel m m1 state k d h settled_here others) in
      (m2, append-Leads (events_of out) _ m m1 m2 (lines, e) leads, follows)
