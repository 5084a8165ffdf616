-- ===== src/Line.antt =====
-- The state of the telephone lines, from the signaling bits, and the monitor that reports its
-- changes (tedium/tools/tedium-tool/src/main.rs). An `Instant` is a number of nanoseconds, and the
-- difference of two instants is 0 where it would be negative, as the standard library documents.
-- What is printed is a list of lines; `print_framer_interrupt_status` prints the whole status.
pub mod Abcd
pub mod Hears
pub mod Follows
mod Tests
use tedium.Common.{
  ℕ, zero, suc, ◌+◌, ◌-◌, ◌*◌, ◌/◌, ◌^◌, Bool, true, false, ◌&&◌, List, [], ◌∷◌, ◌++◌, Option, none,
  some, ◌==◌, ltb, leb, bit_and, bit_or, u8, take, length, get_elem?, if◌then◌else◌,
}
use tedium.Common.Outcome.{Outcome, ok, panic, out_of_bounds, ◌>>=◌, ◌>>◌}
use Prim.Native.String.{String}
use tedium.Registers.Bitfield.{Bitfield, get_field}
use tedium.Registers.Counters.{rsar_layout}
use tedium.Detector.Event.{DetectionEvent}
use tedium.Interrupt.{FramerInterruptStatus, T1FrameStatus, ReceiveSignalingStatus, from_slice}
use tedium.Audio.{Table, timeslot, set_timeslot, address_of}
use tedium.Signaling.{TimeslotAddress, wrapping_sub}
use tedium.Signaling.Processor.{FramerEvent, interrupt, digit, robbed_bit_state}

-- `off_hook` of both states.
unfoldable pub off_hook : ℕ → Bool
off_hook abcd = bit_and abcd 0x0c == 0b1100

pub record LineStateInterrupt : Type 0 where
  pub timestamp : ℕ
  pub abcd : ℕ

pub record LineStateRobbedBitState : Type 0 where
  pub frame_count : ℕ
  pub abcd : ℕ

-- `LineStateRobbedBitState::default()`; that of the other has the time of its making.
abbrev pub default_robbed : LineStateRobbedBitState
default_robbed = record { frame_count = 0; abcd = 0b0101 }

abbrev pub default_interrupt : ℕ → LineStateInterrupt
default_interrupt now = record { timestamp = now; abcd = 0b0101 }

-- What a change reports: how long the state before lasted, and whether the line is off hook now.
abbrev pub Report : Type 0
Report = Option (ℕ × Bool)

-- `(rsar.A() << 3) | (rsar.B() << 2) | (rsar.C() << 1) | (rsar.D() << 0)` on bytes.
unfoldable pub abcd_of : Bitfield → ℕ → ℕ
abcd_of bf rsar =
    let bit = λ (name : String). get_field bf rsar_layout name rsar in
    bit_or (bit_or (bit_or (u8 (bit "A" * 2 ^ 3)) (u8 (bit "B" * 2 ^ 2))) (u8 (bit "C" * 2 ^ 1)))
      (u8 (bit "D" * 2 ^ 0))

-- `LineStateInterrupt::set_state`.
unfoldable pub set_interrupt_state :
    Bitfield → LineStateInterrupt → ℕ → ℕ → LineStateInterrupt × Report
set_interrupt_state bf self timestamp rsar =
    let new_abcd = abcd_of bf rsar in
    if new_abcd == self.abcd then (self, none) else (
      record { timestamp = timestamp; abcd = new_abcd },
      some (timestamp - self.timestamp, off_hook new_abcd),
    )

-- `LineStateRobbedBitState::set_state`; the duration is in milliseconds.
unfoldable pub set_robbed_bit_state :
    LineStateRobbedBitState → ℕ → ℕ → LineStateRobbedBitState × Report
set_robbed_bit_state self frame_count rbs_state =
    let new_abcd = bit_and rbs_state 0x0f in
    if new_abcd == self.abcd then (self, none) else (
      record { frame_count = frame_count; abcd = new_abcd },
      some (wrapping_sub frame_count self.frame_count / 8, off_hook new_abcd),
    )

-- A line that the monitor prints.
pub data Line : Type 0 where
  status_line : FramerInterruptStatus → Line
  interrupt_line : TimeslotAddress → ℕ × Bool → Line
  digit_line : TimeslotAddress → DetectionEvent → Line
  robbed_bit_line : TimeslotAddress → ℕ × Bool → Line

pub record Monitor : Type 0 where
  pub line_state_interrupt : Table LineStateInterrupt
  pub line_state_robbed_bit_state : Table LineStateRobbedBitState

abbrev pub new_monitor : ℕ → Monitor
new_monitor now = record {
  line_state_interrupt = λ _ _. default_interrupt now;
  line_state_robbed_bit_state = λ _ _. default_robbed;
}

abbrev lines_of : (ℕ × Bool → Line) → Report → List Line
lines_of line none = []
lines_of line (some r) = line r ∷ []

-- `line_state_robbed_bit_state[…][…].set_state(…)`, and the line of its change.
unfoldable pub robbed_bit_event : Monitor → ℕ → TimeslotAddress → ℕ → Outcome (Monitor × List Line)
robbed_bit_event self frame_count address rbs_state = do
  line ← timeslot self.line_state_robbed_bit_state address
  let (line', report) = set_robbed_bit_state line frame_count rbs_state
  table ← set_timeslot self.line_state_robbed_bit_state address line'
  ok (
    record self { line_state_robbed_bit_state = table },
    lines_of (robbed_bit_line address) report,
  )

abbrev element : Option ℕ → Outcome ℕ
element (some x) = ok x
element none = panic out_of_bounds

module _ (bf : Bitfield) where
  -- The loop over the timeslots of a signaling status: the `count` ones from `i`.
  unfoldable pub signaling_event :
      Monitor
      → (timestamp channel_index : ℕ) → List ℕ
      → (i count : ℕ) → Outcome (Monitor × List Line)
  signaling_event self timestamp channel_index rsars i zero = ok (self, [])
  signaling_event self timestamp channel_index rsars i (suc count) = do
    rsar ← element (get_elem? rsars i)
    line ← timeslot self.line_state_interrupt (address_of channel_index i)
    let (line', report) = set_interrupt_state bf line timestamp rsar
    table ← set_timeslot self.line_state_interrupt (address_of channel_index i) line'
    (self', lines) ←
        signaling_event (record self { line_state_interrupt = table }) timestamp channel_index rsars
          (suc i) count
    ok (self', lines_of (interrupt_line (address_of channel_index i)) report ++ lines)

  abbrev t1frame_event : Monitor → ℕ → ℕ → Option T1FrameStatus → Outcome (Monitor × List Line)
  t1frame_event self timestamp channel_index none = ok (self, [])
  t1frame_event self timestamp channel_index (some t1frame) = elim t1frame.sig [
    | none ↦ ok (self, [])
    | some sig ↦ signaling_event self timestamp channel_index sig.rsars 0 24
  ]

  -- `&data[0..length]`.
  abbrev slice : List ℕ → ℕ → Outcome (List ℕ)
  slice bytes count =
      if leb count (length bytes) then ok (take count bytes) else panic out_of_bounds

  -- The parser's `Err`, for which the source prints another line, does not occur.
  unfoldable pub interrupt_event : Monitor → ℕ → List ℕ → ℕ → Outcome (Monitor × List Line)
  interrupt_event self timestamp bytes count = do
    truncated ← slice bytes count
    status ← from_slice bf truncated
    (self', lines) ← t1frame_event self timestamp status.channel_index status.t1frame
    ok (self', status_line status ∷ lines)

  -- One round of `monitor`.
  unfoldable pub monitor_event : Monitor → FramerEvent → Outcome (Monitor × List Line)
  monitor_event self (interrupt timestamp bytes count) = interrupt_event self timestamp bytes count
  monitor_event self (digit address event) = ok (self, digit_line address event ∷ [])
  monitor_event self (robbed_bit_state frame_count address rbs_state) =
      robbed_bit_event self frame_count address rbs_state

  -- The events in the order of their arrival, until the senders are gone.
  unfoldable pub monitor : Monitor → List FramerEvent → Outcome (Monitor × List Line)
  monitor self [] = ok (self, [])
  monitor self (event ∷ events) = do
    (self', lines) ← monitor_event self event
    (self'', more) ← monitor self' events
    ok (self'', lines ++ more)
