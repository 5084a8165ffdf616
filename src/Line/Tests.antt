-- ===== src/Line/Tests.antt =====
-- The lines over some events.
use tedium.Common.{◌≡◌, refl, arith, some, true, List, [], ◌∷◌}
use tedium.Common.Outcome.{Outcome, ok, panic}
use tedium.Registers.Bitfield.{arithmetic}
use tedium.Float.Integers.{integers}
use tedium.Signaling.{
  InternalFrame, wrapping_sub, RobbedBitDebouncer, default_frame, process_frame, changes, debounce,
  signal, settled, accept, collect, update,
}
use tedium.Signaling.Processor
use tedium.Signaling.Processor.{
  new_processor, FramerEvent, signal_channels, events_of, advance_detectors,
}
use tedium.Audio.{timeslot}
use tedium.Codec.Ulaw.{decode_i16}
use tedium.Codec.Ulaw.Sample.{decode}
use tedium.Detector.Dtmf
use tedium.Detector.Group
use tedium.Detector.Goertzel
use tedium.Line.{
  Monitor, new_monitor, default_interrupt, default_robbed, set_interrupt_state,
  set_robbed_bit_state, off_hook,
}
use tedium.Line.Abcd.{change_of, set_interrupt_state-set_robbed_bit_state}
use tedium.Line.Hears.{Leads, Follows}
use tedium.Line.Follows.{process_frames-Follows}

-- A line that was on hook for a second of frames is off hook.
robbed_off_hook : (set_robbed_bit_state default_robbed 8000 0b1111).1 ≡ some (1000, true)
unfolding set_robbed_bit_state off_hook wrapping_sub
robbed_off_hook = refl

set_interrupt_state-set_robbed_bit_state_example :
    ((set_interrupt_state arithmetic (default_interrupt 7) 9 0x0f).0.abcd
      ≡ (set_robbed_bit_state default_robbed 8000 0x3f).0.abcd)
    × (change_of (set_interrupt_state arithmetic (default_interrupt 7) 9 0x0f).1
        ≡ change_of (set_robbed_bit_state default_robbed 8000 0x3f).1)
set_interrupt_state-set_robbed_bit_state_example =
    set_interrupt_state-set_robbed_bit_state arithmetic (default_interrupt 7) default_robbed 9 8000
      0x0f 0x3f (omega arith) refl refl

-- A debouncer that has seen one superframe and three quarters of the next, with all bits set.
abbrev waiting : RobbedBitDebouncer
waiting = record {
  state = default_frame;
  accumulator = record {
    timeslot = λ _. 0b0111;
    superframe_frame_count = 24;
    bits_collected = 0b0111;
  };
  history = record { timeslot = λ _. 0b1111; superframe_frame_count = 0; bits_collected = 0b1111 };
}

abbrev start : Processor.SignalingProcessor integers
start = record (new_processor integers) { superframe_state = λ _. waiting }

-- The last frame of the superframe.
abbrev received : List InternalFrame
received = record { frame = λ _ _. 0x7f; frame_count = 47; mf_bits = 0 } ∷ []

abbrev result : Outcome (Processor.SignalingProcessor integers × List FramerEvent)
result = Processor.process_frames integers start received

abbrev result_or : {A : Type 0} → A → Outcome A → A
result_or a (ok b) = b
result_or a (panic reason) = a

-- No detector panics.
result-ok : result ≡ ok (result_or (start, []) result)
unfolding Processor.process_frames Processor.process_frame signal_channels process_frame changes
    debounce signal settled accept collect update wrapping_sub events_of advance_detectors timeslot
    decode decode_i16 Dtmf.new Dtmf.advance Group.iterate Group.poll_all Group.iterate_all
    Goertzel.iterate Goertzel.step Group.new Goertzel.from_hz Goertzel.poll
result-ok = refl

abbrev events : List FramerEvent
events = (result_or (start, []) result).1

process_frames-Follows_example :
    (m' : Monitor) × Leads arithmetic (new_monitor 0) events m'
    × Follows arithmetic m' (result_or (start, []) result).0.superframe_state
process_frames-Follows_example =
    process_frames-Follows arithmetic integers received start (result_or (start, []) result).0
      events (new_monitor 0) result-ok (λ c l i u. refl)
