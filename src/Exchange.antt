-- ===== src/Exchange.antt =====
-- The exchange of frames by isochronous transfers (`LoopbackFrameHandler` of
-- tedium/tools/tedium-tool/src/framer/audio.rs): a completed transfer to the host is processed and
-- its frames go through the audio processor; a transfer to the FPGA is filled with the results. A
-- transfer is the list of its packets; the ends of a ring buffer are one queue. The transfer as
-- libusb sees it (its status, the lengths and buffers of its packets, its submission) is left out.
pub mod Inward
pub mod Outward
mod Tests
use tedium.Common.{
  ℕ, zero, suc, ◌^◌, Bool, ◌&&◌, List, [], ◌∷◌, ◌++◌, Option, none, some, ltb, leb, if◌then◌else◌,
}
use tedium.Common.Outcome.{Outcome, ok, panic, unwrap, ◌>>=◌}
use tedium.Float.{Float}
use tedium.Signaling.{InternalFrame}
use tedium.Audio
use tedium.Audio.{AudioProcessor, ProcessorMessage, Table}
use tedium.Receive.{RingBuffer, RxPacketProcessor, Statistics, reset_tx_fifo_level_stats}
use tedium.Receive.Packet.{process_packet}

-- A frame as it is sent.
pub record TxFrame : Type 0 where
  pub frame_count : ℕ
  pub frame : Table ℕ

abbrev pub to_send : InternalFrame → TxFrame
to_send f = record { frame_count = f.frame_count; frame = f.frame }

module _ (ring : RingBuffer) (fl : Float) where
  open ring use {Queue, push, pop, len}

  pub record LoopbackFrameHandler : Type 0 where
    -- its `unprocessed_frames_producer` and the handler's `unprocessed_frames_consumer` are one queue
    pub rx_packet_processor : RxPacketProcessor ring
    pub processed_frames : Queue
    pub processor : AudioProcessor fl

  -- The loop over the packets of a transfer; `none` is one whose status is not 0.
  unfoldable pub process_packets :
      RxPacketProcessor ring
      → List (Option (List ℕ))
      → Outcome (RxPacketProcessor ring × List (Statistics ring))
  process_packets self [] = ok (self, [])
  process_packets self (none ∷ packets) = process_packets self packets
  process_packets self (some bytes ∷ packets) = do
    (self', messages) ← process_packet ring self bytes
    (self'', more) ← process_packets self' packets
    ok (self'', messages ++ more)

  abbrev pub unwrapped : {A : Type 0} → Option A → Outcome A
  unwrapped (some a) = ok a
  unwrapped none = panic unwrap

  -- The messages that are there when the next frame is processed.
  abbrev pub first_messages : List (List ProcessorMessage) → List ProcessorMessage
  first_messages [] = []
  first_messages (messages ∷ later) = messages

  abbrev pub later_messages : List (List ProcessorMessage) → List (List ProcessorMessage)
  later_messages [] = []
  later_messages (messages ∷ later) = later

  -- The body of the loop over the unprocessed frames, of which `f` leaves `rest`.
  unfoldable pub process_next :
      LoopbackFrameHandler
      → List ProcessorMessage
      → InternalFrame
      → (rest : Queue) → Outcome LoopbackFrameHandler
  process_next self messages f rest = do
    (processor, frame_out) ← Audio.process_frame fl self.processor messages f.frame
    processed ← unwrapped (
        push self.processed_frames
          (record { frame = frame_out; frame_count = f.frame_count; mf_bits = f.mf_bits }))
    ok (record {
      rx_packet_processor = record self.rx_packet_processor { unprocessed_frames_producer = rest };
      processed_frames = processed;
      processor = processor;
    })

  -- The loop; `ok none` means that it is not at its end yet.
  unfoldable pub process_unprocessed :
      (fuel : ℕ)
      → LoopbackFrameHandler
      → List (List ProcessorMessage)
      → Outcome (Option LoopbackFrameHandler)
  process_unprocessed zero self arrivals = ok none
  process_unprocessed (suc fuel) self arrivals =
      elim (pop self.rx_packet_processor.unprocessed_frames_producer) [
        | none ↦ ok (some self)
        | some next ↦ process_next self (first_messages arrivals) next.0 next.1 >>= λ self'.
            process_unprocessed fuel self' (later_messages arrivals)
      ]

  -- The handler afterwards, and what is sent to the debug channel: statistics, and the range of
  -- the level of the FIFO.
  unfoldable pub handle_in :
      (fuel : ℕ)
      → LoopbackFrameHandler
      → List (Option (List ℕ))
      → List (List ProcessorMessage)
      → Outcome (Option LoopbackFrameHandler × List (Statistics ring) × ℕ × ℕ)
  handle_in fuel self packets arrivals = do
    (rx, statistics) ←
        process_packets (reset_tx_fifo_level_stats ring self.rx_packet_processor) packets
    self' ← process_unprocessed fuel (record self { rx_packet_processor = rx }) arrivals
    ok (self', statistics, rx.tx_fifo_level_min, rx.tx_fifo_level_max)

  abbrev pub after_pop : Queue → Queue
  after_pop q = elim (pop q) [ none ↦ q | some next ↦ next.1 ]

  -- The frame that is dropped when the FIFO of the FPGA is too full.
  unfoldable pub draw_down : LoopbackFrameHandler → Queue
  draw_down self =
      let low = self.rx_packet_processor.tx_fifo_level_min in
      if leb low self.rx_packet_processor.tx_fifo_level_max && ltb 12 low
      then after_pop self.processed_frames
      else self.processed_frames

  -- The loop over the frames of a packet; `none` is one that is left as it was.
  unfoldable pub fill_packet : Queue → (count : ℕ) → List (Option TxFrame) × Queue
  fill_packet q zero = ([], q)
  fill_packet q (suc count) = elim (pop q) [
    | none ↦ let (frames, q') = fill_packet q count in (none ∷ frames, q')
    | some next ↦
        let (frames, q') = fill_packet next.1 count in (some (to_send next.0) ∷ frames, q')
  ]

  -- The loop over the packets of a transfer.
  unfoldable pub fill_packets : Queue → (count : ℕ) → List (List (Option TxFrame)) × Queue
  fill_packets q zero = ([], q)
  fill_packets q (suc count) =
      let available_frames = len q in
      let (frames, q') = fill_packet q (if leb 2 available_frames then 2 else available_frames) in
      let (packets, q'') = fill_packets q' count in (frames ∷ packets, q'')

  unfoldable pub handle_out :
      LoopbackFrameHandler → ℕ → List (List (Option TxFrame)) × LoopbackFrameHandler
  handle_out self num_iso_packets =
      let (packets, q) = fill_packets (draw_down self) num_iso_packets in
      (packets, record self { processed_frames = q })
