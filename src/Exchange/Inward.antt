-- ===== src/Exchange/Inward.antt =====
-- What becomes of the frames of a completed transfer to the host.
use tedium.Common.{
  ℕ, zero, suc, ◌+◌, ◌≤◌, ◌<◌, ◌≡◌, refl, sym, ap, ap₂, ◌∙◌, inl, inr, List, [], ◌∷◌, ◌++◌, All,
  Option, some, Option-cases, length, length-append, arith,
}
use mathlib.Core.List.{append_assoc, append-nil}
use tedium.Common.Outcome.{ok}
use tedium.Float.{Float}
use tedium.Signaling.{InternalFrame}
use tedium.Audio.{ProcessorMessage}
use tedium.Audio.Patched.{IsPatching, IsMessage, process_frame-ok}
use tedium.Receive.{RingBuffer, RxPacketProcessor, Statistics, reset_tx_fifo_level_stats}
use tedium.Exchange.{
  LoopbackFrameHandler, process_packets, first_messages, later_messages, process_next,
  process_unprocessed, handle_in,
}

-- The count and the multiframe bits of a frame, and of frames.
abbrev pub label : InternalFrame → ℕ × ℕ
label f = (f.frame_count, f.mf_bits)

unfoldable pub labels : List InternalFrame → List (ℕ × ℕ)
labels [] = []
labels (f ∷ fs) = label f ∷ labels fs

first_messages-IsMessage :
    (ring : RingBuffer) (fl : Float) (arrivals : List (List ProcessorMessage))
    → All (All IsMessage) arrivals
    → All IsMessage (first_messages ring fl arrivals)
      × All (All IsMessage) (later_messages ring fl arrivals)
first_messages-IsMessage ring fl [] h = (tt, tt)
first_messages-IsMessage ring fl (ms ∷ later) (h, hs) = (h, hs)

module _ (ring : RingBuffer) (fl : Float) where
  open ring use {Queue, contents, capacity, push, pop}

  push_room :
      (q : Queue) (f : InternalFrame)
      → length (contents q) < capacity q
      → (q' : Queue) × (push q f ≡ some q')
        × (contents q' ≡ contents q ++ (f ∷ []))
        × (capacity q' ≡ capacity q)
  push_room q f h = elim (Option-cases (push q f)) [
    | inl e ↦ absurd (omega (arith, ring.push-none q f e))
    | inr (q', e) ↦ let (c, k) = ring.push-some q f q' e in (q', e, c, k)
  ]

  process_next-ok :
      (self : LoopbackFrameHandler ring fl) (messages : List ProcessorMessage) (f : InternalFrame)
      (rest : Queue)
      → IsPatching self.processor.patching
      → All IsMessage messages
      → length (contents self.processed_frames) < capacity self.processed_frames
      → (self' : LoopbackFrameHandler ring fl) × (g : InternalFrame) × (process_next ring fl self
            messages f rest
          ≡ ok self')
        × (self'.rx_packet_processor.unprocessed_frames_producer ≡ rest)
        × (contents self'.processed_frames ≡ contents self.processed_frames ++ (g ∷ []))
        × (capacity self'.processed_frames ≡ capacity self.processed_frames)
        × (label g ≡ label f)
        × IsPatching self'.processor.patching
  unfolding process_next
  process_next-ok self messages f rest h k room =
      let (processor, out, e, i, _, _) =
        process_frame-ok fl self.processor messages f.frame 0 0 h k (omega arith) (omega arith) in
      let g : InternalFrame = record {
        frame = out;
        frame_count = f.frame_count;
        mf_bits = f.mf_bits;
      } in
      let (q, p, c, n) = push_room self.processed_frames g room in
      (
        record {
          rx_packet_processor = record self.rx_packet_processor {
            unprocessed_frames_producer = rest;
          };
          processed_frames = q;
          processor = processor;
        },
        g,
        rw (e, p) refl,
        refl,
        c,
        n,
        refl,
        i,
      )

  process_unprocessed-ok :
      (frames : List InternalFrame) (fuel : ℕ) (self : LoopbackFrameHandler ring fl)
      (arrivals : List (List ProcessorMessage))
      → contents self.rx_packet_processor.unprocessed_frames_producer ≡ frames
      → length frames < fuel
      → IsPatching self.processor.patching
      → All (All IsMessage) arrivals
      → length (contents self.processed_frames) + length frames ≤ capacity self.processed_frames
      → (self' : LoopbackFrameHandler ring fl) × (sent : List InternalFrame) × (process_unprocessed
            ring fl fuel self arrivals
          ≡ ok (some self'))
        × (contents self'.rx_packet_processor.unprocessed_frames_producer ≡ [])
        × (contents self'.processed_frames ≡ contents self.processed_frames ++ sent)
        × (labels sent ≡ labels frames)
        × IsPatching self'.processor.patching
  unfolding process_unprocessed labels
  process_unprocessed-ok frames zero self arrivals e l h k room = absurd (omega arith)
  process_unprocessed-ok [] (suc fuel) self arrivals e l h k room =
      elim (Option-cases (pop self.rx_packet_processor.unprocessed_frames_producer)) [
        | inl none_left ↦
            rw (process_unprocessed, none_left)
              (self, [], refl, e, sym (append-nil (contents self.processed_frames)), refl, h)
        | inr ((f, q), p) ↦
            let clash : f ∷ contents q ≡ [] = sym (ring.pop-some _ f q p) ∙ e in cc clash
      ]
  process_unprocessed-ok (f ∷ fs) (suc fuel) self arrivals e l h k room =
      elim (Option-cases (pop self.rx_packet_processor.unprocessed_frames_producer)) [
        | inl none_left ↦ let clash : f ∷ fs ≡ [] = sym e ∙ ring.pop-none _ none_left in cc clash
        | inr ((g, q), p) ↦
            let split : f ∷ fs ≡ g ∷ contents q = sym e ∙ ring.pop-some _ g q p in
            let same : g ≡ f = cc split in
            let rest : contents q ≡ fs = cc split in
            let (first, later) = first_messages-IsMessage ring fl arrivals k in
            let (s1, out, step, unread, put, cap, same_label, i) =
              process_next-ok self (first_messages ring fl arrivals) g q h first
                (omega (arith, room)) in
            let size : length (contents s1.processed_frames)
                ≡ length (contents self.processed_frames) + 1 =
              ap length put ∙ length-append (contents self.processed_frames) (out ∷ []) in
            let (s2, sent, run, empty, all, labelled, j) =
              process_unprocessed-ok fs fuel s1 (later_messages ring fl arrivals)
                (ap contents unread ∙ rest) (omega arith) i later
                (omega (arith, room, size, cap)) in
            rw (process_unprocessed, p, step, run)
              (
                s2,
                out ∷ sent,
                refl,
                empty,
                all
                    ∙ ap (λ xs. xs ++ sent) put
                    ∙ append_assoc (contents self.processed_frames) (out ∷ []) sent,
                ap₂ (λ x xs. x ∷ xs) (same_label ∙ ap label same) labelled,
                j,
              )
      ]

  -- If the packets of a transfer are received without a panic, the patches and the messages name
  -- timeslots that exist, and the queue of processed frames has room, then the handler ends in as
  -- many rounds as there are frames and one more: no frame is left unprocessed, and for each, in
  -- their order, one with its count and multiframe bits is queued to be sent.
  pub handle_in-Processes :
      (self : LoopbackFrameHandler ring fl) (packets : List (Option (List ℕ)))
      (arrivals : List (List ProcessorMessage)) (rx : RxPacketProcessor ring)
      (statistics : List (Statistics ring)) (fuel : ℕ)
      → process_packets ring fl (reset_tx_fifo_level_stats ring self.rx_packet_processor) packets
        ≡ ok (rx, statistics)
      → length (contents rx.unprocessed_frames_producer) < fuel
      → IsPatching self.processor.patching
      → All (All IsMessage) arrivals
      → length (contents self.processed_frames) + length (contents rx.unprocessed_frames_producer)
        ≤ capacity self.processed_frames
      → (self' : LoopbackFrameHandler ring fl) × (sent : List InternalFrame) × (handle_in ring fl
            fuel self packets arrivals
          ≡ ok (some self', statistics, rx.tx_fifo_level_min, rx.tx_fifo_level_max))
        × (contents self'.rx_packet_processor.unprocessed_frames_producer ≡ [])
        × (contents self'.processed_frames ≡ contents self.processed_frames ++ sent)
        × (labels sent ≡ labels (contents rx.unprocessed_frames_producer))
        × IsPatching self'.processor.patching
  unfolding handle_in
  handle_in-Processes self packets arrivals rx statistics fuel e l h k room =
      let (self', sent, run, empty, put, labelled, i) =
        process_unprocessed-ok (contents rx.unprocessed_frames_producer) fuel
          (record self { rx_packet_processor = rx }) arrivals refl l h k room in
      (self', sent, rw (e, run) refl, empty, put, labelled, i)
