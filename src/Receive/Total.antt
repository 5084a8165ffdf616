-- ===== src/Receive/Total.antt =====
-- A packet is processed whole while the counters have room and the levels lie in the histograms.
use tedium.Common.{
  ℕ, zero, suc, ◌+◌, ◌^◌, ◌<◌, ◌≤◌, ◌≡◌, refl, Bool, true, false, List, [], ◌∷◌, length, get_elem?,
  set, some, All, ◌==◌, lt→ltb, arith, if◌then◌else◌,
}
use tedium.Common.Outcome.{ok, >>=-ok}
use tedium.Signaling.{InternalFrame}
use tedium.Receive.{
  RingBuffer, RxPacketProcessor, RxUsbReport, increment, increment_if, is_full, Statistics,
  count_frame, process_frame, process_frames, process_report, process, count_level,
  FramerPeriodicStatistics,
}
use tedium.Receive.Accounting.{Accounts, process_frames-Accounts}

increment-ok : (n : ℕ) → n + 1 < 2 ^ 32 → increment n ≡ ok (n + 1)
unfolding increment
increment-ok n h = rw (lt→ltb (n + 1) (2 ^ 32) h) refl

found :
    (counts : List ℕ) (level : ℕ)
    → level < length counts
    → All (λ n. n + 1 < 2 ^ 32) counts
    → (n : ℕ) × (get_elem? counts level ≡ some n) × (n + 1 < 2 ^ 32)
found [] level h k = absurd (omega arith)
found (n ∷ counts) zero h (k, ks) = (n, refl, k)
found (n ∷ counts) (suc level) h (k, ks) = found counts level (omega arith) ks

count_level-ok :
    (counts : List ℕ) (level : ℕ)
    → level < length counts
    → All (λ n. n + 1 < 2 ^ 32) counts
    → (counts' : List ℕ) × (count_level counts level ≡ ok counts')
unfolding count_level
count_level-ok counts level h k =
    let (n, e, l) = found counts level h k in
    (set counts level (n + 1), rw e (>>=-ok _ (increment-ok n l) refl))

module _ (ring : RingBuffer) where
  open ring use {Queue, push}

  -- The counters can take `n` frames.
  pub record Room (n : ℕ) (self : RxPacketProcessor ring) : Type 0 where
    pub gaps : self.framer_cumulative_statistics.frame_discontinuity_count + n < 2 ^ 32
    pub drops : self.framer_cumulative_statistics.ringbuf_full_drop_count + n < 2 ^ 32
    pub signaling : self.signaling_frames_drop_count + n < 2 ^ 32
    pub within : self.framer_periodic_statistics.frame_count < 8000

  increment_if-ok :
      (b : Bool) (n : ℕ) → n + 1 < 2 ^ 32 → (m : ℕ) × (increment_if ring b n ≡ ok m) × (m ≤ n + 1)
  unfolding increment_if
  increment_if-ok true n h = (n + 1, increment-ok n h, omega arith)
  increment_if-ok false n h = (n, refl, omega arith)

  count_frame-ok :
      (self : RxPacketProcessor ring)
      → self.framer_periodic_statistics.frame_count < 8000
      → (p : FramerPeriodicStatistics) × (ms : List (Statistics ring)) × (count_frame ring self
          ≡ ok (p, ms))
        × (p.frame_count < 8000)
  unfolding count_frame
  count_frame-ok self h =
      let n = self.framer_periodic_statistics.frame_count in
      let room : n + 1 < 2 ^ 32 = omega arith in
      (_, _, >>=-ok _ (increment-ok n room) refl, ground arith)

  process_frame-ok :
      (n : ℕ) (self : RxPacketProcessor ring) (f : InternalFrame)
      → Room (suc n) self
      → (self' : RxPacketProcessor ring) × (ms : List (Statistics ring)) × (process_frame ring self
            f
          ≡ ok (self', ms))
        × Room n self'
  unfolding process_frame
  process_frame-ok n self f r =
      let (p, ms, e_1, within) = count_frame-ok self r.within in
      let (gaps, e_2, l_2) =
        increment_if-ok (if f.frame_count == self.frame_count_next then false else true)
          self.framer_cumulative_statistics.frame_discontinuity_count (omega (arith, r.gaps)) in
      let (drops, e_3, l_3) =
        increment_if-ok (is_full ring (push self.unprocessed_frames_producer f))
          self.framer_cumulative_statistics.ringbuf_full_drop_count (omega (arith, r.drops)) in
      let (signaling, e_4, l_4) =
        increment_if-ok (is_full ring (push self.signaling_frames_producer f))
          self.signaling_frames_drop_count (omega (arith, r.signaling)) in
      (
        _,
        _,
        >>=-ok _ e_1 (>>=-ok _ e_2 (>>=-ok _ e_3 (>>=-ok _ e_4 refl))),
        record {
          gaps = omega (arith, r.gaps, l_2);
          drops = omega (arith, r.drops, l_3);
          signaling = omega (arith, r.signaling, l_4);
          within = within;
        },
      )

  process_frames-ok :
      (frames : List InternalFrame) (self : RxPacketProcessor ring)
      → Room (length frames) self
      → (self' : RxPacketProcessor ring) × (ms : List (Statistics ring)) × (process_frames ring self
            frames
          ≡ ok (self', ms))
  unfolding process_frames
  process_frames-ok [] self r = (_, _, refl)
  process_frames-ok (f ∷ frames) self r =
      let (mid, ms, e, room) = process_frame-ok (length frames) self f r in
      let (last, more, g) = process_frames-ok frames mid room in
      (_, _, >>=-ok _ e (>>=-ok _ g refl))

  -- The report of a packet can be taken in.
  pub record IsReportable (self : RxPacketProcessor ring) (report : RxUsbReport) : Type 0 where
    pub sof : self.framer_cumulative_statistics.sof_discontinuity_count + 1 < 2 ^ 32
    pub rx_level :
        report.fifo_rx_level < length self.framer_periodic_statistics.rx_fifo_level_histogram
    pub tx_level :
        report.fifo_tx_level < length self.framer_periodic_statistics.tx_fifo_level_histogram
    pub rx_counts :
        All (λ n. n + 1 < 2 ^ 32) self.framer_periodic_statistics.rx_fifo_level_histogram
    pub tx_counts :
        All (λ n. n + 1 < 2 ^ 32) self.framer_periodic_statistics.tx_fifo_level_histogram

  process_report-ok :
      (n : ℕ) (self : RxPacketProcessor ring) (report : RxUsbReport)
      → Room n self
      → IsReportable self report
      → (self' : RxPacketProcessor ring) × (process_report ring self report ≡ ok self')
        × Room n self'
        × ((m : ℕ) (last : RxPacketProcessor ring) (ms : List (Statistics ring))
            → Accounts ring m self' last ms
            → Accounts ring m self last ms)
  unfolding process_report
  process_report-ok n self report r i =
      let (sof, e_1, _) =
        increment_if-ok (if report.sof_count == self.sof_count_next then false else true)
          self.framer_cumulative_statistics.sof_discontinuity_count i.sof in
      let (rx, e_2) =
        count_level-ok self.framer_periodic_statistics.rx_fifo_level_histogram report.fifo_rx_level
          i.rx_level i.rx_counts in
      let (tx, e_3) =
        count_level-ok self.framer_periodic_statistics.tx_fifo_level_histogram report.fifo_tx_level
          i.tx_level i.tx_counts in
      (
        _,
        >>=-ok _ e_1 (>>=-ok _ e_2 (>>=-ok _ e_3 refl)),
        record { gaps = r.gaps; drops = r.drops; signaling = r.signaling; within = r.within },
        λ m last ms a. record {
          unprocessed = a.unprocessed;
          signaling = a.signaling;
          period = a.period;
          within = a.within;
        },
      )

  -- A packet whose FIFO levels lie in the histograms is processed without a panic, while the
  -- counters cannot overflow and fewer than 8000 frames have been counted in the period. Of its frames each ends up in the queue of the audio consumer or is counted
  -- as dropped there, the same holds for the signaling consumer, and statistics are sent once for
  -- every 8000 frames.
  pub process-Accounts :
      (self : RxPacketProcessor ring) (report : RxUsbReport) (frames : List InternalFrame)
      → Room (length frames) self
      → IsReportable self report
      → (self' : RxPacketProcessor ring) × (ms : List (Statistics ring)) × (process ring self report
            frames
          ≡ ok (self', ms))
        × Accounts ring (length frames) self self' ms
  unfolding process
  process-Accounts self report frames r i =
      let (reported, e, room, back) = process_report-ok (length frames) self report r i in
      let (self', ms, f) = process_frames-ok frames reported room in
      (
        self',
        ms,
        >>=-ok _ e f,
        back (length frames) self' ms
            (process_frames-Accounts ring frames reported self' ms room.within f),
      )
