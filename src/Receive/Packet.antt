-- ===== src/Receive/Packet.antt =====
-- The bytes of a received packet (`RxPacket` of tedium/tools/tedium-tool/src/framer/audio.rs): some
-- frames, each with a report, and at the end a report of the FPGA. The structs are packed and read
-- in place, with the low byte of a number first, as on every host that the tool runs on.
pub mod Format
pub mod RoundTrip
mod Tests
use tedium.Common.{
  ℕ, zero, suc, ◌+◌, ◌-◌, ◌*◌, ◌/◌, List, [], ◌∷◌, length, take, drop, ltb, if◌then◌else◌,
}
use tedium.Common.Outcome.{Outcome, ok, panic, overflow, ◌>>=◌}
use tedium.Signaling.{InternalFrame}
use tedium.Receive.{
  RxUsbReport, RingBuffer, RxPacketProcessor, Statistics, process_report, process_frames,
}

-- The number in some bytes.
unfoldable pub number : List ℕ → ℕ
number [] = 0
number (b ∷ bytes) = b + 256 * number bytes

unfoldable pub number_at : List ℕ → (offset size : ℕ) → ℕ
number_at bytes offset size = number (take size (drop offset bytes))

-- `size_of::<RxUSBReport>()` and `size_of::<RxFrame>()`.
abbrev pub size_of_report : ℕ
size_of_report = 11

abbrev pub size_of_frame : ℕ
size_of_frame = 197

-- `bytemuck::from_bytes`.
unfoldable pub report_from_bytes : List ℕ → RxUsbReport
report_from_bytes bytes = record {
  sof_count = number_at bytes 0 4;
  fifo_rx_level = number_at bytes 4 1;
  fifo_tx_level = number_at bytes 5 1;
  fifo_rx_underflow_count = number_at bytes 6 2;
  fifo_tx_overflow_count = number_at bytes 8 2;
  sequence_count = number_at bytes 10 1;
}

unfoldable pub frame_from_bytes : List ℕ → InternalFrame
frame_from_bytes bytes = record {
  frame = λ timeslot channel. number_at bytes (timeslot * 8 + channel) 1;
  frame_count = number_at bytes 192 4;
  mf_bits = number_at bytes 196 1;
}

-- `self.slice.len() - size_of::<RxUSBReport>()`.
unfoldable pub report_offset : List ℕ → Outcome ℕ
report_offset slice =
    if ltb (length slice) size_of_report then panic overflow else ok (length slice - size_of_report)

unfoldable pub usb_report : List ℕ → Outcome RxUsbReport
usb_report slice = report_offset slice >>= λ n. ok (report_from_bytes (drop n slice))

-- `chunks_exact`: the first `count` chunks.
unfoldable pub chunks : (count : ℕ) → List ℕ → List InternalFrame
chunks zero bytes = []
chunks (suc count) bytes = frame_from_bytes bytes ∷ chunks count (drop size_of_frame bytes)

unfoldable pub frames : List ℕ → Outcome (List InternalFrame)
frames slice = report_offset slice >>= λ n. ok (chunks (n / size_of_frame) (take n slice))

-- `RxPacketProcessor::process` on the bytes of a packet.
unfoldable pub process_packet :
    (ring : RingBuffer)
    → RxPacketProcessor ring
    → List ℕ
    → Outcome (RxPacketProcessor ring × List (Statistics ring))
process_packet ring self slice = do
  report ← usb_report slice
  self' ← process_report ring self report
  received ← frames slice
  process_frames ring self' received
