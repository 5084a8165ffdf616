-- ===== src/Signaling/Processor.antt =====
-- The signaling processor as a whole (`SignalingProcessor` of
-- tedium/tools/tedium-tool/src/framer/audio.rs): a debouncer for each channel, the detectors of some
-- timeslots, and the events that are sent to the monitor (`FramerEvent` of framer/mod.rs).
use tedium.Common.{ℕ, zero, suc, Option, none, some, List, [], ◌∷◌, ◌++◌, ◌==◌, if◌then◌else◌}
use tedium.Common.Outcome.{Outcome, ok, panic, out_of_bounds, ◌>>=◌}
use tedium.Float.{Float}
use tedium.Codec.Ulaw.Sample.{decode}
use tedium.Detector.Event.{DetectionEvent}
use tedium.Detector.Dtmf
use tedium.Audio.{timeslot, address_of}
use tedium.Signaling.{
  TimeslotAddress, InternalFrame, RobbedBitDebouncer, new, Change, update, signal,
}

pub data FramerEvent : Type 0 where
  -- the time, the buffer of the transfer and the count of the bytes received
  interrupt : (timestamp : ℕ) (bytes : List ℕ) (count : ℕ) → FramerEvent
  digit : TimeslotAddress → DetectionEvent → FramerEvent
  robbed_bit_state : ℕ → TimeslotAddress → ℕ → FramerEvent

abbrev pub event_of : Change → FramerEvent
event_of change = robbed_bit_state change.timestamp_changed change.timeslot_address change.rbs_state

unfoldable pub events_of : List Change → List FramerEvent
events_of [] = []
events_of (change ∷ changes) = event_of change ∷ events_of changes

abbrev pub Channels : Type 0
Channels = ℕ → RobbedBitDebouncer

abbrev pub with_channel : Channels → ℕ → RobbedBitDebouncer → Channels
with_channel state k d = λ c. if k == c then d else state c

-- The loop over `superframe_state`: the `count` channels from `k`.
unfoldable pub signal_channels :
    Channels → InternalFrame → (k count : ℕ) → Channels × List FramerEvent
signal_channels state frame k zero = (state, [])
signal_channels state frame k (suc count) =
    let (d, out) = signal (state k) frame k in
    let (state', more) = signal_channels (with_channel state k d) frame (suc k) count in
    (state', events_of out ++ more)

module _ (fl : Float) where
  abbrev pub Detectors : Type 0
  Detectors = List (TimeslotAddress × Dtmf.Detector fl)

  pub record SignalingProcessor : Type 0 where
    -- the map as the list of its entries in the order in which it is iterated
    pub detectors : Detectors
    pub superframe_state : Channels
    pub last_frame_count : ℕ

  abbrev pub new_processor : SignalingProcessor
  new_processor = record {
    detectors = (address_of 0 1, Dtmf.new fl) ∷ [];
    superframe_state = λ _. new;
    last_frame_count = 0;
  }

  abbrev pub sample_at : Option fl.F → Outcome fl.F
  sample_at (some x) = ok x
  sample_at none = panic out_of_bounds

  abbrev pub digit_of : TimeslotAddress → Option DetectionEvent → List FramerEvent
  digit_of address none = []
  digit_of address (some event) = digit address event ∷ []

  -- The loop over `detectors`.
  unfoldable pub advance_detectors :
      Detectors → InternalFrame → Outcome (Detectors × List FramerEvent)
  advance_detectors [] frame = ok ([], [])
  advance_detectors ((address, detector) ∷ rest) frame = do
    sample_ulaw ← timeslot frame.frame address
    sample_linear ← sample_at (decode fl sample_ulaw)
    (detector', output) ← Dtmf.advance fl detector sample_linear
    (rest', events) ← advance_detectors rest frame
    ok ((address, detector') ∷ rest', digit_of address output ++ events)

  -- `process_frame`, with what it reports of missing frames and the events that it sends.
  unfoldable pub process_frame :
      SignalingProcessor
      → InternalFrame
      → Outcome (SignalingProcessor × Option ℕ × List FramerEvent)
  process_frame self frame_in =
      let (missing, last) = update self.last_frame_count frame_in.frame_count in
      let (state, changes) = signal_channels self.superframe_state frame_in 0 8 in
      do
        (detectors, digits) ← advance_detectors self.detectors frame_in
        ok (
          record { detectors = detectors; superframe_state = state; last_frame_count = last },
          missing,
          changes ++ digits,
        )

  -- `handle` of the thread that receives the frames, one after the other.
  unfoldable pub process_frames :
      SignalingProcessor → List InternalFrame → Outcome (SignalingProcessor × List FramerEvent)
  process_frames self [] = ok (self, [])
  process_frames self (frame ∷ frames) = do
    (self', missing, events) ← process_frame self frame
    (self'', more) ← process_frames self' frames
    ok (self'', events ++ more)
