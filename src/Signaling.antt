-- ===== src/Signaling.antt =====
-- Robbed-bit signaling, received frame by frame (tedium/tools/tedium-tool/src/framer/audio.rs).
-- The bytes of a frame and of the 24 timeslots' states are functions of their indices, of which
-- only those that are in range are read: timeslots below 24 and channels below 8.
pub mod Superframe
pub mod Debounce
pub mod Settle
pub mod Processor
pub mod Continuity
pub mod ExtendedSuperFrame
mod Tests
use tedium.Common.{
  ℕ, zero, suc, ◌+◌, ◌-◌, ◌*◌, ◌/◌, ◌%◌, ◌^◌, Bool, true, false, not, ◌&&◌, List, [], ◌∷◌, ◌++◌,
  Option, none, some, ◌==◌, leb, u8, u32, bit_and, bit_or, if◌then◌else◌,
}

pub record TimeslotAddress : Type 0 where
  pub channel : ℕ
  pub timeslot : ℕ

-- `frame timeslot channel` is the sample.
pub record InternalFrame : Type 0 where
  pub frame : ℕ → ℕ → ℕ
  pub frame_count : ℕ
  pub mf_bits : ℕ

-- `wrapping_sub` and `wrapping_add(1)` of `u32`.
unfoldable pub wrapping_sub : ℕ → ℕ → ℕ
wrapping_sub a b = (a + 2 ^ 32 - b) % 2 ^ 32

abbrev pub wrapping_next : ℕ → ℕ
wrapping_next a = (a + 1) % 2 ^ 32

pub record RobbedBitFrame : Type 0 where
  pub timeslot : ℕ → ℕ
  pub superframe_frame_count : ℕ
  pub bits_collected : ℕ

abbrev pub from_timestamp : ℕ → RobbedBitFrame
from_timestamp superframe_frame_count = record {
  timeslot = λ _. 0;
  superframe_frame_count = superframe_frame_count;
  bits_collected = 0;
}

-- `RobbedBitFrame::default()`.
abbrev pub default_frame : RobbedBitFrame
default_frame = record { timeslot = λ _. 0b0101; superframe_frame_count = 0; bits_collected = 0 }

-- The frame at `n` in the superframe carries a signaling bit of each timeslot.
unfoldable pub collect : RobbedBitFrame → InternalFrame → ℕ → ℕ → RobbedBitFrame
collect self frame channel n = record {
  timeslot = λ i. bit_or (u8 (self.timeslot i * 2)) (bit_and (frame.frame i channel) 1);
  superframe_frame_count = self.superframe_frame_count;
  bits_collected = bit_or self.bits_collected (2 ^ (n / 6));
}

-- `RobbedBitFrame::process_frame`, with the frame afterwards.
unfoldable pub process_frame : RobbedBitFrame → InternalFrame → ℕ → Bool × RobbedBitFrame
process_frame self frame channel =
    let frame_in_superframe = wrapping_sub frame.frame_count self.superframe_frame_count in
    if leb 24 frame_in_superframe
    then (false, self)
    else if not (frame_in_superframe % 6 == 5)
    then (false, self)
    else let collected = collect self frame channel frame_in_superframe in
      ((frame_in_superframe == 23) && (collected.bits_collected == 0b1111), collected)

pub record RobbedBitDebouncer : Type 0 where
  pub state : RobbedBitFrame
  pub accumulator : RobbedBitFrame
  pub history : RobbedBitFrame

abbrev pub new : RobbedBitDebouncer
new = record { state = default_frame; accumulator = default_frame; history = default_frame }

abbrev pub new_frame : RobbedBitDebouncer → ℕ → RobbedBitDebouncer
new_frame self frame_count = record {
  state = self.state;
  accumulator = from_timestamp frame_count;
  history = self.history;
}

-- A call of `change_fn`.
pub record Change : Type 0 where
  pub timestamp_changed : ℕ
  pub timeslot_address : TimeslotAddress
  pub rbs_state : ℕ

-- `rbs_now == rbs_last && rbs_now != *rbs_state`.
unfoldable pub settled : RobbedBitDebouncer → ℕ → Bool
settled self i =
    (self.accumulator.timeslot i == self.history.timeslot i)
    && not (self.accumulator.timeslot i == self.state.timeslot i)

-- The loop over the timeslots: the `count` ones from `i`.
unfoldable pub changes : RobbedBitDebouncer → ℕ → (i count : ℕ) → List Change
changes self channel i zero = []
changes self channel i (suc count) =
    let rest = changes self channel (suc i) count in
    if settled self i
    then record {
      timestamp_changed = self.history.superframe_frame_count;
      timeslot_address = record { channel = channel; timeslot = i };
      rbs_state = self.accumulator.timeslot i;
    }
      ∷ rest
    else rest

-- The debouncer after a complete superframe.
unfoldable pub accept : RobbedBitDebouncer → RobbedBitDebouncer
accept self = record {
  state = record {
    timeslot = λ i. if settled self i then self.accumulator.timeslot i else self.state.timeslot i;
    superframe_frame_count = self.state.superframe_frame_count;
    bits_collected = self.state.bits_collected;
  };
  accumulator = self.accumulator;
  history = self.accumulator;
}

-- `RobbedBitDebouncer::process_frame`, with the calls of `change_fn`.
unfoldable pub debounce : RobbedBitDebouncer → InternalFrame → ℕ → RobbedBitDebouncer × List Change
debounce self frame channel =
    let (complete, accumulator) = process_frame self.accumulator frame channel in
    let next : RobbedBitDebouncer = record {
      state = self.state;
      accumulator = accumulator;
      history = self.history;
    } in
    if complete then (accept next, changes next channel 0 24) else (next, [])

-- `FrameCountDiscontinuityMonitor`: the last frame count.
unfoldable pub update : ℕ → ℕ → Option ℕ × ℕ
update last_frame_count frame_count =
    let expected_frame_count = wrapping_next last_frame_count in
    (
      if last_frame_count == 0
          then none
          else if frame_count == expected_frame_count
          then none
          else some (wrapping_sub frame_count expected_frame_count),
      frame_count,
    )

-- `mf_bit` of a channel in `SignalingProcessor::process_frame`.
abbrev pub mf : InternalFrame → ℕ → Bool
mf frame channel = not (bit_and (frame.mf_bits / 2 ^ channel) 1 == 0)

-- What `SignalingProcessor::process_frame` does to one channel's state.
unfoldable pub signal : RobbedBitDebouncer → InternalFrame → ℕ → RobbedBitDebouncer × List Change
signal state frame channel =
    debounce (if mf frame channel then new_frame state frame.frame_count else state) frame channel
