-- ===== src/Detector/StateMachine/Tests.antt =====
-- The state machine at concrete detections.
use tedium.Common.{ℕ, ◌≡◌, refl, Option, none, some, List, [], ◌∷◌, replicate}
use tedium.Detector.Event.{dtmf_digit}
use tedium.Detector.StateMachine.{new, feed}
use tedium.Detector.StateMachine.Trace.{after, feed-after_event}
use tedium.Detector.StateMachine.Tone.{events, events_tone, events-replicate}

abbrev dialled : List (Option ℕ)
dialled = some 49 ∷ some 49 ∷ none ∷ []

two_tones :
    events new (some 49 ∷ some 49 ∷ some 49 ∷ none ∷ none ∷ some 50 ∷ some 50 ∷ some 50 ∷ [])
    ≡ dtmf_digit 49 ∷ dtmf_digit 50 ∷ []
unfolding events feed new
two_tones = refl

feed-after_event_example :
    (c : ℕ) × (rest : List (Option ℕ)) × (some 49 ∷ some 49 ∷ none ∷ [] ≡ some c ∷ some c ∷ rest)
    × (some 49 ≡ some c)
    × (dtmf_digit 49 ≡ dtmf_digit c)
unfolding feed after new
feed-after_event_example = feed-after_event dialled (some 49) (dtmf_digit 49) refl

events_tone_example : events new (some 49 ∷ some 49 ∷ some 49 ∷ dialled) ≡ dtmf_digit 49 ∷ []
unfolding new
events_tone_example = events_tone new 49 dialled refl refl (refl, (refl, (refl, tt)))

events-replicate_example : events new (replicate 9 (some 35)) ≡ dtmf_digit 35 ∷ []
unfolding new
events-replicate_example = events-replicate new 35 9 refl refl
