-- ===== src/Exchange/Outward.antt =====
-- What a transfer to the FPGA is filled with.
use tedium.Common.{
  ℕ, ◌-◌, ◌*◌, ◌≤◌, ◌≡◌, ◌&&◌, List, [], ◌∷◌, ◌++◌, All, Option, some, length, ltb, leb,
  if◌then◌else◌,
}
use tedium.Float.{Float}
use tedium.Signaling.{InternalFrame}
use tedium.Receive.{RingBuffer}
use tedium.Exchange.{LoopbackFrameHandler, TxFrame, to_send}

-- The frames of a packet, all of them filled, and of a transfer.
unfoldable pub filled : List InternalFrame → List (Option TxFrame)
filled [] = []
filled (f ∷ fs) = some (to_send f) ∷ filled fs

unfoldable pub filled_packets : List (List InternalFrame) → List (List (Option TxFrame))
filled_packets [] = []
filled_packets (fs ∷ packets) = filled fs ∷ filled_packets packets

unfoldable pub frames_of : List (List InternalFrame) → List InternalFrame
frames_of [] = []
frames_of (fs ∷ packets) = fs ++ frames_of packets

module _ (ring : RingBuffer) (fl : Float) where
  open ring use {Queue, contents, pop, len}

  -- As many packets as asked for, of at most two frames each, and of two as long as there are any.
  abbrev pub Sends : Queue → ℕ → List (List (Option TxFrame)) × Queue → Type 0
  Sends q count out =
      (sent : List (List InternalFrame)) × (out.0 ≡ filled_packets sent)
      × (contents q ≡ frames_of sent ++ contents out.1)
      × All (λ fs. length fs ≤ 2) sent
      × (length sent ≡ count)
      × (length (contents out.1) ≡ length (contents q) - 2 * count)

  -- Is a frame dropped?
  abbrev pub dropped : LoopbackFrameHandler ring fl → ℕ
  dropped self =
      let low = self.rx_packet_processor.tx_fifo_level_min in
      if leb low self.rx_packet_processor.tx_fifo_level_max && ltb 12 low then 1 else 0
