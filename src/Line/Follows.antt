-- ===== src/Line/Follows.antt =====
-- The monitor of the lines and the signaling processor together.
use tedium.Common.{
  ℕ, ◌≡◌, refl, sym, ap, subst, List, [], ◌∷◌, ◌++◌, All, Option, none, some, arith,
}
use tedium.Common.Outcome.{Outcome, ok, panic, >>=-eq-ok}
use tedium.Float.{Float}
use tedium.Codec.Ulaw.Sample.{decode}
use tedium.Detector.Dtmf
use tedium.Audio.{timeslot}
use tedium.Detector.Event.{DetectionEvent}
use tedium.Registers.Bitfield.{Bitfield}
use tedium.Signaling.{TimeslotAddress, InternalFrame}
use tedium.Signaling.Processor
use tedium.Signaling.Processor.{
  Channels, signal_channels, FramerEvent, interrupt, digit, robbed_bit_state, Detectors,
  SignalingProcessor, advance_detectors, digit_of, sample_at,
}
use tedium.Line.{Monitor, monitor, monitor_event, digit_line}
use tedium.Line.Hears.{Leads, Follows, append-Leads, signal_channels-Follows}

-- The events of the detectors.
abbrev IsDigit : FramerEvent → Type 0
IsDigit (digit address event) = Unit
IsDigit (interrupt timestamp bytes count) = ⊥
IsDigit (robbed_bit_state frame_count address rbs_state) = ⊥

module _ (bf : Bitfield) where
  digits-Leads : (xs : List FramerEvent) (m : Monitor) → All IsDigit xs → Leads bf m xs m
  unfolding monitor monitor_event
  digits-Leads [] m h = ([], refl)
  digits-Leads (digit address event ∷ xs) m (h, hs) =
      let (out, e) = digits-Leads xs m hs in (digit_line address event ∷ out, rw e refl)
  digits-Leads (interrupt timestamp bytes count ∷ xs) m (h, hs) = absurd h
  digits-Leads (robbed_bit_state frame_count address rbs_state ∷ xs) m (h, hs) = absurd h

module _ (fl : Float) where
  append-IsDigit :
      (address : TimeslotAddress) (output : Option DetectionEvent) (xs : List FramerEvent)
      → All IsDigit xs
      → All IsDigit (digit_of fl address output ++ xs)
  append-IsDigit address none xs h = h
  append-IsDigit address (some event) xs h = (tt, h)

  advance_detectors-IsDigit :
      (ds ds' : Detectors fl) (f : InternalFrame) (xs : List FramerEvent)
      → advance_detectors fl ds f ≡ ok (ds', xs)
      → All IsDigit xs
  unfolding advance_detectors
  advance_detectors-IsDigit [] ds' f xs e = let same : xs ≡ [] = cc in rw same tt
  advance_detectors-IsDigit ((address, detector) ∷ rest) ds' f xs e =
      let (a, _, e1) = >>=-eq-ok (timeslot f.frame address) _ e in
      let (b, _, e2) = >>=-eq-ok (sample_at fl (decode fl a)) _ e1 in
      let ((c, output), _, e3) = >>=-eq-ok (Dtmf.advance fl detector b) _ e2 in
      let ((rest', events), run, e4) = >>=-eq-ok (advance_detectors fl rest f) _ e3 in
      let same : xs ≡ digit_of fl address output ++ events = cc in
      rw same
        (append-IsDigit address output events (advance_detectors-IsDigit rest rest' f events run))

-- The channels that a result has; those of `p` where there is none.
abbrev last_of :
    {fl : Float}
    → SignalingProcessor fl
    → Outcome (SignalingProcessor fl × List FramerEvent)
    → Channels
last_of p (ok (q, events)) = q.superframe_state
last_of p (panic reason) = p.superframe_state

abbrev state_of :
    {fl : Float}
    → SignalingProcessor fl
    → Outcome (SignalingProcessor fl × Option ℕ × List FramerEvent)
    → Channels
state_of p (ok (q, missing, events)) = q.superframe_state
state_of p (panic reason) = p.superframe_state

module _ (bf : Bitfield) (fl : Float) where
  process_frame-Follows :
      (p p' : SignalingProcessor fl) (f : InternalFrame) (missing : Option ℕ)
      (events : List FramerEvent) (m : Monitor)
      → Processor.process_frame fl p f ≡ ok (p', missing, events)
      → Follows bf m p.superframe_state
      → (m' : Monitor) × Leads bf m events m' × Follows bf m' p'.superframe_state
  unfolding Processor.process_frame
  process_frame-Follows p p' f missing events m e h =
      let state = signal_channels p.superframe_state f 0 8 in
      let ((ds, digits), run, same) = >>=-eq-ok (advance_detectors fl p.detectors f) _ e in
      let all : events ≡ state.1 ++ digits = cc in
      let kept : p'.superframe_state ≡ state.0 = sym (ap (state_of p) same) in
      let (m', leads, follows) =
        signal_channels-Follows bf 8 0 p.superframe_state f m (omega arith) h in
      (
        m',
        subst (λ xs. Leads bf m xs m') (sym all)
            (append-Leads bf state.1 digits m m' m' leads (
              digits-Leads bf digits m'
                (advance_detectors-IsDigit fl p.detectors ds f digits run))),
        subst (λ t. Follows bf m' t) (sym kept) follows,
      )

  -- Whatever frames are received, if no detector panics the monitor takes all events of the
  -- signaling processor without a panic, and if the lines had the bits of the debouncers' states
  -- before, they have them after, on each of the 24 timeslots of the eight channels.
  pub process_frames-Follows :
      (fs : List InternalFrame) (p p' : SignalingProcessor fl) (events : List FramerEvent)
      (m : Monitor)
      → Processor.process_frames fl p fs ≡ ok (p', events)
      → Follows bf m p.superframe_state
      → (m' : Monitor) × Leads bf m events m' × Follows bf m' p'.superframe_state
  unfolding Processor.process_frames monitor
  process_frames-Follows [] p p' events m e h =
      let none_left : events ≡ [] = cc in
      let same : p.superframe_state ≡ p'.superframe_state = ap (last_of p) e in
      (
        m,
        subst (λ xs. Leads bf m xs m) (sym none_left) ([], refl),
        subst (λ t. Follows bf m t) same h,
      )
  process_frames-Follows (f ∷ fs) p p' events m e h =
      let ((p1, missing, first), run, rest) = >>=-eq-ok (Processor.process_frame fl p f) _ e in
      let ((p2, more), runs, same) = >>=-eq-ok (Processor.process_frames fl p1 fs) _ rest in
      let all : events ≡ first ++ more = cc in
      let kept : p'.superframe_state ≡ p2.superframe_state = sym (ap (last_of p) same) in
      let (m1, leads, follows) = process_frame-Follows p p1 f missing first m run h in
      let (m2, leads', follows') = process_frames-Follows fs p1 p2 more m1 runs follows in
      (
        m2,
        subst (λ xs. Leads bf m xs m2) (sym all) (append-Leads bf first more m m1 m2 leads leads'),
        subst (λ t. Follows bf m2 t) (sym kept) follows',
      )
