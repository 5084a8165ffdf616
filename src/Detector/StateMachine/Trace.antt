-- ===== src/Detector/StateMachine/Trace.antt =====
-- What a whole history of detections does to the state machine.
use tedium.Common.{ℕ, ◌≡◌, ◌≢◌, refl, Option, none, some, List, [], ◌∷◌, arith, sym, ap, ◌∙◌}
use tedium.Detector.Event.{DetectionEvent, dtmf_digit}
use tedium.Detector.StateMachine.{s1, s2, DetectionStateMachine, new, feed}

-- The machine after a history of detections, the latest first.
unfoldable pub after : List (Option ℕ) → DetectionStateMachine
after [] = new
after (d ∷ history) = (feed (after history) d).0

abbrev pub latest : List (Option ℕ) → Option ℕ
latest [] = none
latest (d ∷ history) = d

-- In `s2` the last two detections are one key.
abbrev pub Waiting : List (Option ℕ) → Type 0
Waiting history = (c : ℕ) × (rest : List (Option ℕ)) × (history ≡ some c ∷ some c ∷ rest)

pub record IsConsistent (history : List (Option ℕ)) (m : DetectionStateMachine) : Type 0 where
  pub kept : m.last_detection ≡ latest history
  pub not_s1 : m.state ≢ s1
  pub waiting : m.state ≡ s2 → Waiting history

feed-kept : (m : DetectionStateMachine) (d : Option ℕ) → (feed m d).0.last_detection ≡ d
unfolding feed
feed-kept m d = refl

feed-not_s1 : (m : DetectionStateMachine) (d : Option ℕ) → m.state ≢ s1 → (feed m d).0.state ≢ s1
unfolding feed
feed-not_s1 m d h = ground arith

-- `s2` is entered on the second of two equal detections.
feed-waiting :
    (m : DetectionStateMachine) (d : Option ℕ)
    → m.state ≢ s1
    → (feed m d).0.state ≡ s2
    → (c : ℕ) × (d ≡ some c) × (m.last_detection ≡ some c)
unfolding feed
feed-waiting m d h e = ground arith

-- An event needs the state `s2` and a third equal detection.
feed-event :
    (m : DetectionStateMachine) (d : Option ℕ) (e : DetectionEvent)
    → m.state ≢ s1
    → (feed m d).1 ≡ some e
    → (c : ℕ) × (m.state ≡ s2) × (m.last_detection ≡ some c) × (d ≡ some c) × (e ≡ dtmf_digit c)
unfolding feed
feed-event m d e h k = ground arith

twice :
    (history : List (Option ℕ)) (d : Option ℕ) (c : ℕ)
    → d ≡ some c
    → latest history ≡ some c
    → Waiting (d ∷ history)
twice [] d c e k = absurd (cc)
twice (x ∷ rest) d c e k = (c, rest, cc)

pub after-IsConsistent : (history : List (Option ℕ)) → IsConsistent history (after history)
unfolding after new
after-IsConsistent [] = record { kept = refl; not_s1 = λ e. cc; waiting = λ e. absurd (cc) }
after-IsConsistent (d ∷ history) =
    let ih = after-IsConsistent history in
    record {
      kept = feed-kept (after history) d;
      not_s1 = feed-not_s1 (after history) d ih.not_s1;
      waiting = λ e.
          let (c, here, last) = feed-waiting (after history) d ih.not_s1 e in
          twice history d c here (sym ih.kept ∙ last);
    }

-- After any history, a detection raises an event only if it is a key that the two detections
-- before it were too, and the event is the digit of that key.
pub feed-after_event :
    (history : List (Option ℕ)) (d : Option ℕ) (e : DetectionEvent)
    → (feed (after history) d).1 ≡ some e
    → (c : ℕ) × (rest : List (Option ℕ)) × (history ≡ some c ∷ some c ∷ rest)
      × (d ≡ some c)
      × (e ≡ dtmf_digit c)
feed-after_event history d e h =
    let inv = after-IsConsistent history in
    let (c, in_s2, last, here, digit) = feed-event (after history) d e inv.not_s1 h in
    let (c', rest, shape) = inv.waiting in_s2 in
    let same : c ≡ c' = cc (inv.kept, ap latest shape) in (c, rest, cc, here, digit)
