-- ===== src/Detector/Event.antt =====
-- The events of the detectors (detector/mod.rs).
use tedium.Common.{ℕ}

-- A digit is its code point.
pub data DetectionEvent : Type 0 where
  dtmf_digit : ℕ → DetectionEvent
  pulse_digit : ℕ → DetectionEvent
