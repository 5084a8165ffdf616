-- ===== src/Receive/Tests.antt =====
-- A packet with three frames, for two queues of which one is too short.
use tedium.Common.{ℕ, ◌≡◌, List, [], ◌∷◌, arith}
use tedium.Common.Outcome.{ok}
use tedium.Signaling.{InternalFrame}
use tedium.Receive.{RxPacketProcessor, RxUsbReport, new, Statistics, process}
use tedium.Receive.Queues.{lists}
use tedium.Receive.Accounting.{Accounts}
use tedium.Receive.Total.{Room, IsReportable, process-Accounts}

abbrev counted : ℕ → InternalFrame
counted n = record { frame = λ t c. 0xff; frame_count = n; mf_bits = 0 }

abbrev report_at : ℕ → RxUsbReport
report_at level = record {
  sof_count = 0;
  fifo_rx_level = level;
  fifo_tx_level = 9;
  fifo_rx_underflow_count = 0;
  fifo_tx_overflow_count = 0;
  sequence_count = 0;
}

abbrev fresh : RxPacketProcessor lists
fresh = new lists ([], 2) ([], 200)

abbrev three : List InternalFrame
three = counted 0 ∷ counted 1 ∷ counted 5 ∷ []

fresh-Room : Room lists 3 fresh
fresh-Room = record {
  gaps = omega arith;
  drops = omega arith;
  signaling = omega arith;
  within = omega arith;
}

fresh-IsReportable : IsReportable lists fresh (report_at 7)
fresh-IsReportable = record {
  sof = omega arith;
  rx_level = omega arith;
  tx_level = omega arith;
  rx_counts = omega arith;
  tx_counts = omega arith;
}

process-Accounts_example :
    (self' : RxPacketProcessor lists) × (ms : List (Statistics lists)) × (process lists fresh
        (report_at 7)
        three
      ≡ ok (self', ms))
    × Accounts lists 3 fresh self' ms
process-Accounts_example =
    process-Accounts lists fresh (report_at 7) three fresh-Room fresh-IsReportable
