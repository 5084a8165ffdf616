-- ===== src/Detector/StateMachine.antt =====
-- The debouncing of DTMF detections (`DetectionStateMachine` of detector/dtmf.rs). A detection is
-- the code point of a key, or `none`.
pub mod Tone
pub mod Trace
mod Tests
use tedium.Common.{ℕ, Bool, true, false, not, ◌&&◌, ◌||◌, Option, none, some, ◌==◌, if◌then◌else◌}
use tedium.Detector.Event.{DetectionEvent, dtmf_digit}

pub data DetectionState : Type 0 where
  s0 s1 s2 s3 : DetectionState

pub record DetectionStateMachine : Type 0 where
  pub state : DetectionState
  pub last_detection : Option ℕ

pub new : DetectionStateMachine
new = record { state = s0; last_detection = none }

abbrev is_some : Option ℕ → Bool
is_some (some c) = true
is_some none = false

abbrev same_key : Option ℕ → Option ℕ → Bool
same_key (some a) (some b) = a == b
same_key none none = true
same_key _ _ = false

-- The match of `feed` on the state: the arms of the source in their order, with `length` the
-- constant `true`. The flag asks for an event.
transition : DetectionState → Bool → Bool → Bool → Bool → DetectionState × Bool
transition s0 length same valid pause =
    if length && (same && not valid)
    then (s1, false)
    else if same && valid
    then (s2, false)
    else (s0, false)
transition s1 length same valid pause =
    if not length || (not same || pause)
    then (s0, false)
    else if valid && same
    then (s3, true)
    else (s1, false)
transition s2 length same valid pause =
    if pause then (s0, false) else if not length || not same then (s3, false) else (s3, true)
transition s3 length same valid pause = if pause then (s0, false) else (s3, false)

abbrev event_of : Bool → Option ℕ → Option DetectionEvent
event_of true (some digit) = some (dtmf_digit digit)
event_of _ _ = none

pub feed : DetectionStateMachine → Option ℕ → DetectionStateMachine × Option DetectionEvent
unfolding transition
feed m detection =
    let valid = is_some detection && is_some m.last_detection in
    let same = valid && same_key detection m.last_detection in
    let pause = not (is_some detection) && not (is_some m.last_detection) in
    let (new_state, new_tone) = transition m.state true same valid pause in
    (record { state = new_state; last_detection = detection }, event_of new_tone detection)
