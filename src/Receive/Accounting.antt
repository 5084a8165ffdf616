-- ===== src/Receive/Accounting.antt =====
-- No received frame is lost without being counted.
use tedium.Common.{
  ℕ, suc, ◌+◌, ◌*◌, ◌<◌, ◌≡◌, refl, subst, inl, inr, List, [], ◌∷◌, ◌++◌, length, length-append,
  Option, none, some, Option-cases, arith,
}
use tedium.Common.Outcome.{ok, >>=-eq-ok}
use tedium.Signaling.{InternalFrame}
use tedium.Receive.{
  RingBuffer, RxPacketProcessor, increment, increment_if, queued, is_full, Statistics, count_frame,
  process_frame, process_frames, FramerPeriodicStatistics,
}

increment-eq : (n m : ℕ) → increment n ≡ ok m → m ≡ n + 1
unfolding increment
increment-eq n m e = ground arith

along : {A : Type 0} {x y : A} (P : A → Type 0) → ok x ≡ ok y → P x → P y
along {A} {x} {y} P e p = let same : x ≡ y = cc e in subst P same p

module _ (ring : RingBuffer) where
  open ring use {Queue, push, contents}

  -- One if the queue was full.
  abbrev dropped : Option Queue → ℕ
  dropped none = 1
  dropped (some q) = 0

  increment_if-eq :
      (o : Option Queue) (n m : ℕ) → increment_if ring (is_full ring o) n ≡ ok m → m ≡ n + dropped o
  unfolding increment_if
  increment_if-eq none n m e = increment-eq n m e
  increment_if-eq (some q) n m e = ground arith

  -- A frame is queued or counted.
  length-queued :
      (q : Queue) (f : InternalFrame)
      → length (contents (queued ring (push q f) q)) + dropped (push q f) ≡ length (contents q) + 1
  length-queued q f = elim (Option-cases (push q f)) [
    | inl e ↦ rw e refl
    | inr (q', e) ↦
        let (c, _) = ring.push-some q f q' e in
        rw (e, c) (omega (arith, length-append (contents q) (f ∷ [])))
  ]

  count_frame-eq :
      (self : RxPacketProcessor ring) (p : FramerPeriodicStatistics) (ms : List (Statistics ring))
      → self.framer_periodic_statistics.frame_count < 8000
      → count_frame ring self ≡ ok (p, ms)
      → (p.frame_count + 8000 * length ms ≡ self.framer_periodic_statistics.frame_count + 1)
        × (p.frame_count < 8000)
  unfolding count_frame increment
  count_frame-eq self p ms h e = ground arith

  -- What `n` frames do to the counts.
  pub record Accounts (n : ℕ) (self self' : RxPacketProcessor ring) (ms : List (Statistics ring))
      : Type 0 where
    pub unprocessed :
        length (contents self'.unprocessed_frames_producer)
          + self'.framer_cumulative_statistics.ringbuf_full_drop_count
        ≡ length (contents self.unprocessed_frames_producer)
          + self.framer_cumulative_statistics.ringbuf_full_drop_count
          + n
    pub signaling :
        length (contents self'.signaling_frames_producer) + self'.signaling_frames_drop_count
        ≡ length (contents self.signaling_frames_producer) + self.signaling_frames_drop_count + n
    pub period :
        self'.framer_periodic_statistics.frame_count + 8000 * length ms
        ≡ self.framer_periodic_statistics.frame_count + n
    pub within : self'.framer_periodic_statistics.frame_count < 8000

  updated-Accounts :
      (self : RxPacketProcessor ring) (f : InternalFrame) (periodic : FramerPeriodicStatistics)
      (messages : List (Statistics ring)) (gaps drops signaling_drops next : ℕ)
      → self.framer_periodic_statistics.frame_count < 8000
      → count_frame ring self ≡ ok (periodic, messages)
      → increment_if ring
          (is_full ring (push self.unprocessed_frames_producer f))
          self.framer_cumulative_statistics.ringbuf_full_drop_count
        ≡ ok drops
      → increment_if ring
          (is_full ring (push self.signaling_frames_producer f))
          self.signaling_frames_drop_count
        ≡ ok signaling_drops
      → Accounts 1 self
          (record self {
            unprocessed_frames_producer =
                queued ring
                  (push self.unprocessed_frames_producer f)
                  self.unprocessed_frames_producer;
            signaling_frames_producer =
                queued ring (push self.signaling_frames_producer f) self.signaling_frames_producer;
            framer_periodic_statistics = periodic;
            framer_cumulative_statistics = record self.framer_cumulative_statistics {
              frame_discontinuity_count = gaps;
              ringbuf_full_drop_count = drops;
            };
            signaling_frames_drop_count = signaling_drops;
            frame_count_next = next;
          })
          messages
  updated-Accounts self f periodic messages gaps drops signaling_drops next h e_1 e_2 e_3 =
      let (sent, below) = count_frame-eq self periodic messages h e_1 in
      record {
        unprocessed = omega (
          arith,
          length-queued self.unprocessed_frames_producer f,
          increment_if-eq (push self.unprocessed_frames_producer f) _ drops e_2,
        );
        signaling = omega (
          arith,
          length-queued self.signaling_frames_producer f,
          increment_if-eq (push self.signaling_frames_producer f) _ signaling_drops e_3,
        );
        period = sent;
        within = below;
      }

  process_frame-Accounts :
      (self : RxPacketProcessor ring) (f : InternalFrame) (self' : RxPacketProcessor ring)
      (ms : List (Statistics ring))
      → self.framer_periodic_statistics.frame_count < 8000
      → process_frame ring self f ≡ ok (self', ms)
      → Accounts 1 self self' ms
  unfolding process_frame
  process_frame-Accounts self f self' ms h e =
      let ((periodic, messages), e_1, r_1) = >>=-eq-ok (count_frame ring self) _ e in
      let (gaps, e_2, r_2) = >>=-eq-ok (increment_if ring _ _) _ r_1 in
      let (drops, e_3, r_3) =
        >>=-eq-ok (increment_if ring (is_full ring (push self.unprocessed_frames_producer f)) _) _
          r_2 in
      let (signaling_drops, e_4, r_4) =
        >>=-eq-ok (increment_if ring (is_full ring (push self.signaling_frames_producer f)) _) _
          r_3 in
      along (λ (r : RxPacketProcessor ring × List (Statistics ring)). Accounts 1 self r.0 r.1) r_4
        (updated-Accounts self f periodic messages gaps drops signaling_drops _ h e_1 e_3 e_4)

  Accounts-add :
      (n : ℕ) (a b c : RxPacketProcessor ring) (ms ns : List (Statistics ring))
      → Accounts 1 a b ms
      → Accounts n b c ns
      → Accounts (suc n) a c (ms ++ ns)
  Accounts-add n a b c ms ns x y = record {
    unprocessed = omega (arith, x.unprocessed, y.unprocessed);
    signaling = omega (arith, x.signaling, y.signaling);
    period = omega (arith, x.period, y.period, length-append ms ns);
    within = y.within;
  }

  -- Over the frames of a packet: each is in the queue of a consumer or counted as dropped there,
  -- and there is one message for every 8000 frames.
  pub process_frames-Accounts :
      (frames : List InternalFrame) (self self' : RxPacketProcessor ring)
      (ms : List (Statistics ring))
      → self.framer_periodic_statistics.frame_count < 8000
      → process_frames ring self frames ≡ ok (self', ms)
      → Accounts (length frames) self self' ms
  unfolding process_frames
  process_frames-Accounts [] self self' ms h e =
      along (λ (r : RxPacketProcessor ring × List (Statistics ring)). Accounts 0 self r.0 r.1) e
        (record {
          unprocessed = omega arith;
          signaling = omega arith;
          period = omega arith;
          within = h;
        })
  process_frames-Accounts (f ∷ frames) self self' ms h e =
      let ((mid, messages), e_1, r_1) = >>=-eq-ok (process_frame ring self f) _ e in
      let ((last, more), e_2, r_2) = >>=-eq-ok (process_frames ring mid frames) _ r_1 in
      let first = process_frame-Accounts self f mid messages h e_1 in
      along
        (λ (r : RxPacketProcessor ring × List (Statistics ring)).
          Accounts (suc (length frames)) self r.0 r.1)
        r_2
        (Accounts-add (length frames) self mid last messages more first
          (process_frames-Accounts frames mid last more first.within e_2))
