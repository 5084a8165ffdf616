-- ===== src/Receive/Packet/RoundTrip.antt =====
-- A packet is read back to what it was made of.
use tedium.Common.{
  ℕ, zero, suc, ◌+◌, ◌*◌, ◌/◌, ◌%◌, ◌^◌, ◌<◌, ◌≡◌, refl, ap, ◌∙◌, ltb, true, List, [], ◌∷◌, ◌++◌,
  All, length, take, drop, length-append, take-length-append, drop-length-append, arith,
}
use mathlib.Core.List.{append_assoc}
use tedium.Common.Outcome.{ok, panic, overflow}
use tedium.Signaling.{InternalFrame}
use tedium.Receive.{RxUsbReport, RingBuffer, RxPacketProcessor, process}
use tedium.Receive.Packet.{
  number, number_at, report_from_bytes, frame_from_bytes, report_offset, usb_report, chunks, frames,
  process_packet,
}
use tedium.Receive.Packet.Format.{
  bytes_of, encode_report, samples, encode_frame, encode_frames, encode_packet, IsReport, IsFrame,
  IsAlike, AreAlike,
}

drop-append : (xs ys : List ℕ) (n k : ℕ) → length xs ≡ n → drop (n + k) (xs ++ ys) ≡ drop k ys
drop-append [] ys n k e = let same : n + k ≡ k = omega (arith, e) in rw same refl
drop-append (x ∷ xs) ys zero k e = absurd (omega (arith, e))
drop-append (x ∷ xs) ys (suc n) k e =
    let same : suc n + k ≡ suc (n + k) = omega arith in
    rw same (drop-append xs ys n k (omega (arith, e)))

one_byte : (n : ℕ) → n < 256 → number (bytes_of 1 n) ≡ n
unfolding number bytes_of
one_byte n h = omega arith

two_bytes : (n : ℕ) → n < 2 ^ 16 → number (bytes_of 2 n) ≡ n
unfolding number bytes_of
two_bytes n h = omega arith

four_bytes : (n : ℕ) → n < 2 ^ 32 → number (bytes_of 4 n) ≡ n
unfolding number bytes_of
four_bytes n h = omega arith

-- The report.
report_from_bytes-encode_report :
    (r : RxUsbReport) → IsReport r → report_from_bytes (encode_report r) ≡ r
unfolding report_from_bytes encode_report bytes_of number_at number
report_from_bytes-encode_report r h =
    rw
      (
        four_bytes r.sof_count h.sof,
        one_byte r.fifo_rx_level h.rx_level,
        one_byte r.fifo_tx_level h.tx_level,
        two_bytes r.fifo_rx_underflow_count h.underflow,
        two_bytes r.fifo_tx_overflow_count h.overflow,
        one_byte r.sequence_count h.sequence,
      )
      refl

length-encode_report : (r : RxUsbReport) → length (encode_report r) ≡ 11
unfolding encode_report bytes_of
length-encode_report r = refl

-- The samples of a frame.
length-samples : (g : ℕ → ℕ → ℕ) (start count : ℕ) → length (samples g start count) ≡ count
unfolding samples
length-samples g start zero = refl
length-samples g start (suc count) = ap suc (length-samples g (suc start) count)

number_at-samples :
    (g : ℕ → ℕ → ℕ) (ys : List ℕ) (start count j : ℕ)
    → j < count
    → number_at (samples g start count ++ ys) j 1 ≡ g ((start + j) / 8) ((start + j) % 8)
unfolding samples number_at number
number_at-samples g ys start zero j l = absurd (omega arith)
number_at-samples g ys start (suc count) zero l =
    let same : start + 0 ≡ start = omega arith in rw same (omega arith)
number_at-samples g ys start (suc count) (suc j) l =
    let same : start + suc j ≡ suc start + j = omega arith in
    rw same (number_at-samples g ys (suc start) count j (omega arith))

length-encode_frame : (f : InternalFrame) → length (encode_frame f) ≡ 197
unfolding encode_frame bytes_of
length-encode_frame f =
    length-append (samples f.frame 0 192) _ ∙ ap (λ n. n + 5) (length-samples f.frame 0 192)

frame_from_bytes-IsAlike :
    (f : InternalFrame) (rest : List ℕ)
    → IsFrame f
    → IsAlike (frame_from_bytes (encode_frame f ++ rest)) f
unfolding frame_from_bytes encode_frame number_at bytes_of
frame_from_bytes-IsAlike f rest (h, k) =
    let all = samples f.frame 0 192 in
    let split : encode_frame f ++ rest
        ≡ all ++ (bytes_of 4 f.frame_count ++ (bytes_of 1 f.mf_bits ++ rest)) =
      append_assoc all _ rest in
    (
      λ t c l m.
          let place : (0 + (t * 8 + c)) / 8 ≡ t = omega arith in
          let lane : (0 + (t * 8 + c)) % 8 ≡ c = omega arith in
          rw split
            (number_at-samples f.frame _ 0 192 (t * 8 + c) (omega arith) ∙ rw (place, lane) refl),
      ap (λ bs. number_at bs 192 4) split
          ∙ ap (λ bs. number (take 4 bs)) (drop-append all _ 192 0 (length-samples f.frame 0 192))
          ∙ four_bytes f.frame_count h,
      ap (λ bs. number_at bs 196 1) split
          ∙ ap (λ bs. number (take 1 bs)) (drop-append all _ 192 4 (length-samples f.frame 0 192))
          ∙ one_byte f.mf_bits k,
    )

length-encode_frames : (fs : List InternalFrame) → length (encode_frames fs) ≡ 197 * length fs
unfolding encode_frames
length-encode_frames [] = refl
length-encode_frames (f ∷ fs) = omega (
  arith,
  length-append (encode_frame f) (encode_frames fs),
  length-encode_frame f,
  length-encode_frames fs,
)

chunks-AreAlike :
    (fs : List InternalFrame) → All IsFrame fs → AreAlike (chunks (length fs) (encode_frames fs)) fs
unfolding chunks encode_frames
chunks-AreAlike [] h = tt
chunks-AreAlike (f ∷ fs) (h, hs) = (
  frame_from_bytes-IsAlike f (encode_frames fs) h,
  rw (drop-append (encode_frame f) (encode_frames fs) 197 0 (length-encode_frame f))
      (chunks-AreAlike fs hs),
)

report_offset-encode_packet :
    (fs : List InternalFrame) (r : RxUsbReport)
    → report_offset (encode_packet fs r) ≡ ok (length (encode_frames fs))
unfolding report_offset
report_offset-encode_packet fs r =
    ground (arith, length-append (encode_frames fs) (encode_report r), length-encode_report r)

-- The report and the frames of a packet are read back from its bytes, the frames with their reports
-- and their 192 samples, and no slice is out of range.
frames-encode_packet :
    (fs : List InternalFrame) (r : RxUsbReport)
    → All IsFrame fs
    → IsReport r
    → (usb_report (encode_packet fs r) ≡ ok r)
      × ((fs' : List InternalFrame) × (frames (encode_packet fs r) ≡ ok fs') × AreAlike fs' fs)
unfolding usb_report frames
frames-encode_packet fs r h i =
    let count : length (encode_frames fs) / 197 ≡ length fs =
      omega (arith, length-encode_frames fs) in
    rw (report_offset-encode_packet fs r) (
      rw (drop-length-append (encode_frames fs) (encode_report r))
          (ap ok (report_from_bytes-encode_report r i)),
      (
        chunks (length fs) (encode_frames fs),
        rw (take-length-append (encode_frames fs) (encode_report r), count) refl,
        chunks-AreAlike fs h,
      ),
    )

-- A packet in the format is processed as the report and the frames that it was made of, with the
-- same reports and samples, and no slice is out of range; of fewer bytes than a report has, the
-- handler panics.
pub process_packet-encode_packet :
    (ring : RingBuffer) (self : RxPacketProcessor ring) (fs : List InternalFrame) (r : RxUsbReport)
    (short : List ℕ)
    → All IsFrame fs
    → IsReport r
    → length short < 11
    → ((fs' : List InternalFrame) × (process_packet ring self (encode_packet fs r)
          ≡ process ring self r fs')
        × AreAlike fs' fs)
      × (process_packet ring self short ≡ panic overflow)
unfolding process_packet process usb_report report_offset
process_packet-encode_packet ring self fs r short h i l =
    let (e, (fs', f, alike)) = frames-encode_packet fs r h i in
    let is_short : ltb (length short) 11 ≡ true = ground arith in
    ((fs', rw (e, f) refl, alike), rw is_short refl)
