-- ===== src/Detector/StateMachine/Tone.antt =====
-- What the state machine reports of a tone: one event, however long the tone is held.
use tedium.Common.{
  ℕ, zero, suc, ◌≡◌, refl, Bool, true, false, not, ◌&&◌, Option, none, some, List, [], ◌∷◌, arith,
  replicate, if◌then◌else◌, leb,
}
use tedium.Detector.Event.{DetectionEvent, dtmf_digit}
use tedium.Detector.StateMachine.{s0, s2, s3, DetectionStateMachine, feed, is_some}

abbrev cons_event : Option DetectionEvent → List DetectionEvent → List DetectionEvent
cons_event none es = es
cons_event (some e) es = e ∷ es

-- The events of a run over detections, the earliest first.
unfoldable pub events : DetectionStateMachine → List (Option ℕ) → List DetectionEvent
events m [] = []
events m (d ∷ ds) = let (m', e) = feed m d in cons_event e (events m' ds)

abbrev is_pause : Option ℕ → Option ℕ → Bool
is_pause last d = not (is_some last) && not (is_some d)

-- No two successive detections are `none`, counting the one before the first.
abbrev pub Unbroken : Option ℕ → List (Option ℕ) → Type 0
Unbroken last [] = Unit
Unbroken last (d ∷ ds) = (is_pause last d ≡ false) × Unbroken d ds

feed_s3 :
    (m : DetectionStateMachine) (d : Option ℕ)
    → m.state ≡ s3
    → is_pause m.last_detection d ≡ false
    → feed m d ≡ (record { state = s3; last_detection = d }, none)
unfolding feed
feed_s3 m d h u = ground arith

silent :
    (ds : List (Option ℕ)) (last : Option ℕ)
    → Unbroken last ds
    → events (record { state = s3; last_detection = last }) ds ≡ []
unfolding events
silent [] last u = refl
silent (d ∷ ds) last u =
    rw (feed_s3 (record { state = s3; last_detection = last }) d refl u.0) (silent ds d u.1)

feed_first :
    (m : DetectionStateMachine) (c : ℕ)
    → m.state ≡ s0
    → m.last_detection ≡ none
    → feed m (some c) ≡ (record { state = s0; last_detection = some c }, none)
unfolding feed
feed_first m c h k = ground arith

feed_second :
    (c : ℕ)
    → feed (record { state = s0; last_detection = some c }) (some c)
      ≡ (record { state = s2; last_detection = some c }, none)
unfolding feed
feed_second c = ground arith

feed_third :
    (c : ℕ)
    → feed (record { state = s2; last_detection = some c }) (some c)
      ≡ (record { state = s3; last_detection = some c }, some (dtmf_digit c))
unfolding feed
feed_third c = ground arith

-- After a silence, three detections of one key report it once; what follows reports nothing
-- more until two successive detections are `none`, whatever keys it holds.
pub events_tone :
    (m : DetectionStateMachine) (c : ℕ) (ds : List (Option ℕ))
    → m.state ≡ s0
    → m.last_detection ≡ none
    → Unbroken (some c) ds
    → events m (some c ∷ some c ∷ some c ∷ ds) ≡ dtmf_digit c ∷ []
unfolding events
events_tone m c ds h k u =
    rw (feed_first m c h k, feed_second c, feed_third c, silent ds (some c) u)

Unbroken-replicate : (n c : ℕ) → Unbroken (some c) (replicate n (some c))
Unbroken-replicate zero c = tt
Unbroken-replicate (suc n) c = (refl, Unbroken-replicate n c)

long_enough : (n : ℕ) → leb 3 (suc (suc (suc n))) ≡ true
long_enough n = ground arith

-- After a silence, a key that is detected `n` times in a row is reported once if `n` is 3 or
-- more, and not at all if it is less.
pub events-replicate :
    (m : DetectionStateMachine) (c n : ℕ)
    → m.state ≡ s0
    → m.last_detection ≡ none
    → events m (replicate n (some c)) ≡ (if leb 3 n then dtmf_digit c ∷ [] else [])
unfolding events
events-replicate m c zero h k = refl
events-replicate m c (suc zero) h k = rw (feed_first m c h k)
events-replicate m c (suc (suc zero)) h k = rw (feed_first m c h k, feed_second c)
events-replicate m c (suc (suc (suc n))) h k =
    rw (long_enough n) (events_tone m c (replicate n (some c)) h k (Unbroken-replicate n c))
