-- ===== src/Receive/Packet/Format.antt =====
-- The format of a packet, as the FPGA writes it.
use tedium.Common.{ℕ, zero, suc, ◌/◌, ◌%◌, ◌^◌, ◌<◌, ◌≡◌, List, [], ◌∷◌, ◌++◌}
use tedium.Signaling.{InternalFrame}
use tedium.Receive.{RxUsbReport}

-- The bytes of a number, the low one first.
unfoldable pub bytes_of : (size n : ℕ) → List ℕ
bytes_of zero n = []
bytes_of (suc size) n = (n % 256) ∷ bytes_of size (n / 256)

unfoldable pub encode_report : RxUsbReport → List ℕ
encode_report r =
    bytes_of 4 r.sof_count
    ++ (bytes_of 1 r.fifo_rx_level
        ++ (bytes_of 1 r.fifo_tx_level
            ++ (bytes_of 2 r.fifo_rx_underflow_count
                ++ (bytes_of 2 r.fifo_tx_overflow_count ++ bytes_of 1 r.sequence_count))))

-- The samples, with the channels of a timeslot side by side.
unfoldable pub samples : (ℕ → ℕ → ℕ) → (start count : ℕ) → List ℕ
samples frame start zero = []
samples frame start (suc count) = frame (start / 8) (start % 8) ∷ samples frame (suc start) count

unfoldable pub encode_frame : InternalFrame → List ℕ
encode_frame f = samples f.frame 0 192 ++ (bytes_of 4 f.frame_count ++ bytes_of 1 f.mf_bits)

unfoldable pub encode_frames : List InternalFrame → List ℕ
encode_frames [] = []
encode_frames (f ∷ fs) = encode_frame f ++ encode_frames fs

abbrev pub encode_packet : List InternalFrame → RxUsbReport → List ℕ
encode_packet fs r = encode_frames fs ++ encode_report r

pub record IsReport (r : RxUsbReport) : Type 0 where
  pub sof : r.sof_count < 2 ^ 32
  pub rx_level : r.fifo_rx_level < 256
  pub tx_level : r.fifo_tx_level < 256
  pub underflow : r.fifo_rx_underflow_count < 2 ^ 16
  pub overflow : r.fifo_tx_overflow_count < 2 ^ 16
  pub sequence : r.sequence_count < 256

abbrev pub IsFrame : InternalFrame → Type 0
IsFrame f = (f.frame_count < 2 ^ 32) × (f.mf_bits < 256)

-- Two frames with the same reports and the same samples.
abbrev pub IsAlike : InternalFrame → InternalFrame → Type 0
IsAlike f g =
    ((timeslot channel : ℕ)
      → timeslot < 24
      → channel < 8
      → f.frame timeslot channel ≡ g.frame timeslot channel)
    × (f.frame_count ≡ g.frame_count)
    × (f.mf_bits ≡ g.mf_bits)

abbrev pub AreAlike : List InternalFrame → List InternalFrame → Type 0
AreAlike [] [] = Unit
AreAlike (f ∷ fs) (g ∷ gs) = IsAlike f g × AreAlike fs gs
AreAlike _ _ = ⊥
