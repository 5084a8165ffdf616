-- ===== src/Receive.antt =====
-- The packets of received frames (`RxPacket` and `RxPacketProcessor` of
-- tedium/tools/tedium-tool/src/framer/audio.rs). The ring buffers are the crate ringbuf's and a
-- parameter; what goes to the debug channel, whose receiver is taken to be there, is returned.
-- An addition that overflows is a panic, as in a debug build.
pub mod Accounting
pub mod Total
pub mod Packet
pub mod Queues
mod Tests
use tedium.Common.{
  ℕ, zero, suc, ◌+◌, ◌-◌, ◌*◌, ◌^◌, ◌<◌, ◌≤◌, ◌≡◌, Bool, true, false, List, [], ◌∷◌, ◌++◌, length,
  get_elem?, set, replicate, Option, none, some, ◌==◌, ltb, leb, if◌then◌else◌,
}
use tedium.Common.Outcome.{Outcome, ok, panic, overflow, out_of_bounds, ◌>>=◌, ◌>>◌}
use tedium.Signaling.{InternalFrame, wrapping_next}

pub record RxUsbReport : Type 0 where
  pub sof_count : ℕ
  pub fifo_rx_level : ℕ
  pub fifo_tx_level : ℕ
  pub fifo_rx_underflow_count : ℕ
  pub fifo_tx_overflow_count : ℕ
  pub sequence_count : ℕ

pub record FramerPeriodicStatistics : Type 0 where
  pub rx_fifo_level_histogram : List ℕ
  pub tx_fifo_level_histogram : List ℕ
  pub frame_count : ℕ

pub record FramerCumulativeStatistics : Type 0 where
  pub rx_fifo_underflow_count : ℕ
  pub tx_fifo_overflow_count : ℕ
  pub sof_discontinuity_count : ℕ
  pub frame_discontinuity_count : ℕ
  pub ringbuf_full_drop_count : ℕ

abbrev pub rx_fifo_depth : ℕ
rx_fifo_depth = 8

abbrev pub tx_fifo_depth : ℕ
tx_fifo_depth = 32

-- `FramerPeriodicStatistics::default()` and `FramerCumulativeStatistics::default()`.
abbrev pub no_frames : FramerPeriodicStatistics
no_frames = record {
  rx_fifo_level_histogram = replicate rx_fifo_depth 0;
  tx_fifo_level_histogram = replicate tx_fifo_depth 0;
  frame_count = 0;
}

abbrev pub no_losses : FramerCumulativeStatistics
no_losses = record {
  rx_fifo_underflow_count = 0;
  tx_fifo_overflow_count = 0;
  sof_discontinuity_count = 0;
  frame_discontinuity_count = 0;
  ringbuf_full_drop_count = 0;
}

-- A bounded queue, of which the source holds the two ends: `push` gives the frame back when the
-- queue is full.
pub record RingBuffer : Type 1 where
  pub Queue : Type 0
  pub contents : Queue → List InternalFrame
  pub capacity : Queue → ℕ
  pub push : Queue → InternalFrame → Option Queue
  pub push-some :
      (q : Queue) (f : InternalFrame) (q' : Queue)
      → push q f ≡ some q'
      → (contents q' ≡ contents q ++ (f ∷ [])) × (capacity q' ≡ capacity q)
  pub push-none :
      (q : Queue) (f : InternalFrame) → push q f ≡ none → length (contents q) ≡ capacity q
  pub pop : Queue → Option (InternalFrame × Queue)
  pub pop-some :
      (q : Queue) (f : InternalFrame) (q' : Queue)
      → pop q ≡ some (f, q')
      → contents q ≡ f ∷ contents q'
  pub pop-none : (q : Queue) → pop q ≡ none → contents q ≡ []
  pub len : Queue → ℕ
  pub len_lem : (q : Queue) → len q ≡ length (contents q)

-- `n += 1` on `u32`.
unfoldable pub increment : ℕ → Outcome ℕ
increment n = if ltb (n + 1) (2 ^ 32) then ok (n + 1) else panic overflow

abbrev pub increment_at : Option ℕ → List ℕ → ℕ → Outcome (List ℕ)
increment_at none counts level = panic out_of_bounds
increment_at (some n) counts level = increment n >>= λ m. ok (set counts level m)

-- `histogram[level] += 1`.
unfoldable pub count_level : List ℕ → ℕ → Outcome (List ℕ)
count_level counts level = increment_at (get_elem? counts level) counts level

module _ (ring : RingBuffer) where
  open ring use {Queue, push}

  pub record RxPacketProcessor : Type 0 where
    pub unprocessed_frames_producer : Queue
    pub signaling_frames_producer : Queue
    pub framer_periodic_statistics : FramerPeriodicStatistics
    pub framer_cumulative_statistics : FramerCumulativeStatistics
    pub signaling_frames_drop_count : ℕ
    pub sof_count_next : ℕ
    pub frame_count_next : ℕ
    pub tx_fifo_level_min : ℕ
    pub tx_fifo_level_max : ℕ

  abbrev pub new : Queue → Queue → RxPacketProcessor
  new frames_in signaling = record {
    unprocessed_frames_producer = frames_in;
    signaling_frames_producer = signaling;
    framer_periodic_statistics = no_frames;
    framer_cumulative_statistics = no_losses;
    signaling_frames_drop_count = 0;
    sof_count_next = 0;
    frame_count_next = 0;
    tx_fifo_level_min = 255;
    tx_fifo_level_max = 0;
  }

  abbrev pub reset_tx_fifo_level_stats : RxPacketProcessor → RxPacketProcessor
  reset_tx_fifo_level_stats self = record self { tx_fifo_level_max = 0; tx_fifo_level_min = 255 }

  -- `if condition { n += 1; }`.
  unfoldable pub increment_if : Bool → ℕ → Outcome ℕ
  increment_if condition n = if condition then increment n else ok n

  -- What `process` does with the report at the end of a packet.
  unfoldable pub process_report : RxPacketProcessor → RxUsbReport → Outcome RxPacketProcessor
  process_report self report = do
    let cumulative = self.framer_cumulative_statistics
    let periodic = self.framer_periodic_statistics
    sof ←
        increment_if (if report.sof_count == self.sof_count_next then false else true)
          cumulative.sof_discontinuity_count
    rx ← count_level periodic.rx_fifo_level_histogram report.fifo_rx_level
    tx ← count_level periodic.tx_fifo_level_histogram report.fifo_tx_level
    ok (record self {
      framer_periodic_statistics = record periodic {
        rx_fifo_level_histogram = rx;
        tx_fifo_level_histogram = tx;
      };
      framer_cumulative_statistics = record cumulative {
        sof_discontinuity_count = sof;
        rx_fifo_underflow_count = report.fifo_rx_underflow_count;
        tx_fifo_overflow_count = report.fifo_tx_overflow_count;
      };
      sof_count_next = wrapping_next report.sof_count;
      tx_fifo_level_min =
          if ltb report.fifo_tx_level self.tx_fifo_level_min
          then report.fifo_tx_level
          else self.tx_fifo_level_min;
      tx_fifo_level_max =
          if ltb self.tx_fifo_level_max report.fifo_tx_level
          then report.fifo_tx_level
          else self.tx_fifo_level_max;
    })

  abbrev pub queued : Option Queue → Queue → Queue
  queued none q = q
  queued (some q') q = q'

  abbrev pub is_full : Option Queue → Bool
  is_full none = true
  is_full (some q) = false

  -- A message to the debug channel.
  abbrev pub Statistics : Type 0
  Statistics = FramerPeriodicStatistics × FramerCumulativeStatistics

  -- The count of the period's frames, and what is sent when the period ends.
  unfoldable pub count_frame :
      RxPacketProcessor → Outcome (FramerPeriodicStatistics × List Statistics)
  count_frame self = do
    let periodic = self.framer_periodic_statistics
    n ← increment periodic.frame_count
    let counted : FramerPeriodicStatistics = record periodic { frame_count = n }
    ok (
        if leb 8000 n
        then (no_frames, (counted, self.framer_cumulative_statistics) ∷ [])
        else (counted, []))

  -- The loop's body, for one frame of the packet.
  unfoldable pub process_frame :
      RxPacketProcessor → InternalFrame → Outcome (RxPacketProcessor × List Statistics)
  process_frame self frame = do
    (periodic, messages) ← count_frame self
    let cumulative = self.framer_cumulative_statistics
    gaps ←
        increment_if (if frame.frame_count == self.frame_count_next then false else true)
          cumulative.frame_discontinuity_count
    let unprocessed = push self.unprocessed_frames_producer frame
    drops ← increment_if (is_full unprocessed) cumulative.ringbuf_full_drop_count
    let signaling = push self.signaling_frames_producer frame
    signaling_drops ← increment_if (is_full signaling) self.signaling_frames_drop_count
    ok (
      record self {
        unprocessed_frames_producer = queued unprocessed self.unprocessed_frames_producer;
        signaling_frames_producer = queued signaling self.signaling_frames_producer;
        framer_periodic_statistics = periodic;
        framer_cumulative_statistics = record cumulative {
          frame_discontinuity_count = gaps;
          ringbuf_full_drop_count = drops;
        };
        signaling_frames_drop_count = signaling_drops;
        frame_count_next = wrapping_next frame.frame_count;
      },
      messages,
    )

  unfoldable pub process_frames :
      RxPacketProcessor → List InternalFrame → Outcome (RxPacketProcessor × List Statistics)
  process_frames self [] = ok (self, [])
  process_frames self (frame ∷ frames) = do
    (self', messages) ← process_frame self frame
    (self'', more) ← process_frames self' frames
    ok (self'', messages ++ more)

  -- `RxPacketProcessor::process`, of the parts of a packet.
  unfoldable pub process :
      RxPacketProcessor
      → RxUsbReport
      → List InternalFrame
      → Outcome (RxPacketProcessor × List Statistics)
  process self report frames = do
    reported ← process_report self report
    process_frames reported frames
