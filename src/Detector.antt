-- ===== src/Detector.antt =====
-- The tone detectors (tedium/tools/tedium-tool/src/detector).
pub mod Event
pub mod Goertzel
pub mod Group
pub mod StateMachine
pub mod Dtmf
