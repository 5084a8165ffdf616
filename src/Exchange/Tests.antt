-- ===== src/Exchange/Tests.antt =====
-- A transfer with a packet that failed and one of two frames, and the transfer that sends them.
use tedium.Common.{ℕ, ◌+◌, ◌≡◌, refl, List, [], ◌∷◌, ◌++◌, none, some, arith}
use tedium.Common.Outcome.{ok}
use tedium.Float.Integers.{integers}
use tedium.Signaling.{InternalFrame}
use tedium.Audio
use tedium.Audio.{idle, input, patch, address_of, ProcessorMessage, AudioProcessor}
use tedium.Audio.Patched.{IsPatching}
use tedium.Receive.{RxPacketProcessor, new}
use tedium.Receive.Queues.{lists}
use tedium.Exchange.{LoopbackFrameHandler, process_packets, handle_in}
use tedium.Exchange.Inward.{labels, handle_in-Processes}

abbrev framed : ℕ → InternalFrame
framed n = record { frame = λ t c. t + c; frame_count = n; mf_bits = 0 }

abbrev receiver : RxPacketProcessor lists
receiver = record (new lists (framed 1 ∷ framed 2 ∷ framed 3 ∷ [], 40) ([], 200)) {
  tx_fifo_level_min = 14;
  tx_fifo_level_max = 16;
}

abbrev handler : LoopbackFrameHandler lists integers
handler = record {
  rx_packet_processor = receiver;
  processed_frames = (framed 7 ∷ framed 8 ∷ framed 9 ∷ framed 10 ∷ [], 40);
  processor = Audio.new integers;
}

handler-IsPatching : IsPatching handler.processor.patching
unfolding Audio.new
handler-IsPatching t c = tt

abbrev arrivals : List (List ProcessorMessage)
arrivals = (patch (address_of 0 1) (input (address_of 7 23)) ∷ []) ∷ []

abbrev after_reset : RxPacketProcessor lists
after_reset = record receiver { tx_fifo_level_max = 0; tx_fifo_level_min = 255 }

failed_packet-ok : process_packets lists integers after_reset (none ∷ []) ≡ ok (after_reset, [])
unfolding process_packets
failed_packet-ok = refl

handle_in-Processes_example :
    (self' : LoopbackFrameHandler lists integers) × (sent : List InternalFrame) × (handle_in lists
        integers 4 handler
        (none ∷ [])
        arrivals
      ≡ ok (some self', [], 255, 0))
    × (self'.rx_packet_processor.unprocessed_frames_producer.0 ≡ [])
    × (self'.processed_frames.0 ≡ handler.processed_frames.0 ++ sent)
    × (labels sent ≡ labels (framed 1 ∷ framed 2 ∷ framed 3 ∷ []))
    × IsPatching self'.processor.patching
handle_in-Processes_example =
    handle_in-Processes lists integers handler (none ∷ []) arrivals after_reset [] 4
      failed_packet-ok (omega arith) handler-IsPatching ((omega arith, tt), tt) (omega arith)
