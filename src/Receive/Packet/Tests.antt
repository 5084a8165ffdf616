-- ===== src/Receive/Packet/Tests.antt =====
-- A packet with two frames, and one that is too short.
use tedium.Common.{◌≡◌, refl, List, [], ◌∷◌, arith}
use tedium.Common.Outcome.{panic, overflow}
use tedium.Signaling.{InternalFrame}
use tedium.Receive.{RxUsbReport, RxPacketProcessor, new, process}
use tedium.Receive.Queues.{lists}
use tedium.Receive.Packet.{process_packet, number_at, number}
use tedium.Receive.Packet.Format.{encode_packet, encode_report, bytes_of, IsReport, AreAlike}
use tedium.Receive.Packet.RoundTrip.{process_packet-encode_packet}

abbrev sent : List InternalFrame
sent =
    record { frame = λ t c. t; frame_count = 0x01020304; mf_bits = 0x80 }
    ∷ record { frame = λ t c. c; frame_count = 0x01020305; mf_bits = 0 }
    ∷ []

abbrev usb : RxUsbReport
usb = record {
  sof_count = 70000;
  fifo_rx_level = 2;
  fifo_tx_level = 9;
  fifo_rx_underflow_count = 300;
  fifo_tx_overflow_count = 0;
  sequence_count = 255;
}

abbrev self : RxPacketProcessor lists
self = new lists ([], 40) ([], 200)

usb-IsReport : IsReport usb
usb-IsReport = record {
  sof = omega arith;
  rx_level = omega arith;
  tx_level = omega arith;
  underflow = omega arith;
  overflow = omega arith;
  sequence = omega arith;
}

-- The underflow count has its low byte first.
report_bytes : number_at (encode_report usb) 6 1 ≡ 44
unfolding number_at number encode_report bytes_of
report_bytes = refl

process_packet-encode_packet_example :
    ((fs' : List InternalFrame) × (process_packet lists self (encode_packet sent usb)
        ≡ process lists self usb fs')
      × AreAlike fs' sent)
    × (process_packet lists self (1 ∷ 2 ∷ []) ≡ panic overflow)
process_packet-encode_packet_example =
    process_packet-encode_packet lists self sent usb (1 ∷ 2 ∷ [])
      ((omega arith, omega arith), ((omega arith, omega arith), tt)) usb-IsReport (omega arith)
