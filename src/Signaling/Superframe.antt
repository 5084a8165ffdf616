-- ===== src/Signaling/Superframe.antt =====
-- A superframe received whole gives each timeslot's A, B, C and D bits.
use tedium.Common.{
  ℕ, zero, suc, ◌+◌, ◌-◌, ◌*◌, ◌/◌, ◌%◌, ◌^◌, ◌<◌, ◌≤◌, ◌≡◌, refl, Bool-cases, inl, inr, Bool,
  false, ◌&&◌, ◌==◌, ==_iff, leb, u8, bit_and, bit_or, bit_and-halves, bit_and-zero, bit_or-shifted,
  arith,
}
use native.Mathlib.Nat.{pow-suc}
use tedium.Signaling.{
  InternalFrame, RobbedBitFrame, wrapping_sub, from_timestamp, collect, process_frame,
}

-- The least bit of timeslot `i`.
abbrev pub bit : InternalFrame → ℕ → ℕ → ℕ
bit frame channel i = frame.frame i channel % 2

-- The frames of a superframe, by their place in it: their counts follow on from the first's.
abbrev pub Follow : ℕ → (ℕ → InternalFrame) → Type 0
Follow start frames = (k : ℕ) → (frames k).frame_count ≡ (start + k) % 2 ^ 32

-- The state after the frames before the `k`th, and what the last of them returned.
unfoldable pub receive : ℕ → (ℕ → InternalFrame) → ℕ → ℕ → Bool × RobbedBitFrame
receive start frames channel zero = (false, from_timestamp start)
receive start frames channel (suc k) =
    process_frame (receive start frames channel k).1 (frames k) channel

-- The bits of the first `m` frames that carry one, the first on top.
pub gathered : (ℕ → InternalFrame) → ℕ → ℕ → ℕ → ℕ
gathered frames channel i zero = 0
gathered frames channel i (suc m) =
    gathered frames channel i m * 2 + bit (frames (m * 6 + 5)) channel i

low_bit : (v : ℕ) → bit_and v 1 ≡ v % 2
low_bit v = omega (arith, bit_and-halves v 1, bit_and-zero (v / 2))

shift_in : (v b : ℕ) → v < 128 → bit_or (u8 (v * 2)) (bit_and b 1) ≡ v * 2 + b % 2
shift_in v b h =
    let e : u8 (v * 2) ≡ v * 2 ^ 1 = omega arith in
    rw (low_bit b, e) (omega (arith, bit_or-shifted 1 v (b % 2) (omega arith)))

gathered-lt : (frames : ℕ → InternalFrame) (c i m : ℕ) → gathered frames c i m < 2 ^ m
unfolding gathered
gathered-lt frames c i zero = omega arith
gathered-lt frames c i (suc m) = omega (arith, pow-suc 2 m, gathered-lt frames c i m)

small_power : (m : ℕ) → m < 4 → 2 ^ m < 16
small_power zero h = omega arith
small_power (suc zero) h = omega arith
small_power (suc (suc zero)) h = omega arith
small_power (suc (suc (suc zero))) h = omega arith
small_power (suc (suc (suc (suc m)))) h = absurd (omega arith)

next_bit : (m : ℕ) → m < 4 → bit_or (2 ^ m - 1) (2 ^ m) ≡ 2 ^ suc m - 1
next_bit zero h = refl
next_bit (suc zero) h = refl
next_bit (suc (suc zero)) h = refl
next_bit (suc (suc (suc zero))) h = refl
next_bit (suc (suc (suc (suc m)))) h = absurd (omega arith)

-- What is known after `k` frames.
record IsAfter (start : ℕ) (frames : ℕ → InternalFrame) (c k : ℕ) (self : RobbedBitFrame)
    : Type 0 where
  since : self.superframe_frame_count ≡ start
  bits : self.bits_collected ≡ 2 ^ (k / 6) - 1
  timeslots : (i : ℕ) → self.timeslot i ≡ gathered frames c i (k / 6)

last : (k : ℕ) → ((k == 23) && ((2 ^ (suc k / 6) - 1) == 15)) ≡ (k == 23)
last k = elim (Bool-cases (k == 23)) [
  | inl e ↦ let here : k ≡ 23 = (==_iff k 23).0 e in rw here refl
  | inr e ↦ rw e refl
]

module _ (start : ℕ) (start_lt : start < 2 ^ 32) (frames : ℕ → InternalFrame) (c : ℕ)
    (follow : Follow start frames) where
  place : (k : ℕ) → k < 24 → wrapping_sub (frames k).frame_count start ≡ k
  unfolding wrapping_sub
  place k h = omega (arith, follow k)

  carries :
      (k : ℕ)
      → k < 24
      → k % 6 ≡ 5
      → (self : RobbedBitFrame) → IsAfter start frames c k self
      → IsAfter start frames c (suc k) (collect self (frames k) c k)
  unfolding collect gathered
  carries k h e self a =
      let up : suc k / 6 ≡ suc (k / 6) = omega arith in
      let here : k / 6 * 6 + 5 ≡ k = omega arith in
      record {
        since = a.since;
        bits = rw (up, a.bits) (next_bit (k / 6) (omega arith));
        timeslots = λ i.
            rw (up, a.timeslots i, here)
              (shift_in (gathered frames c i (k / 6)) ((frames k).frame i c)
                (omega (arith, gathered-lt frames c i (k / 6), small_power (k / 6) (omega arith))));
      }

  step :
      (k : ℕ)
      → k < 24
      → (self : RobbedBitFrame) → IsAfter start frames c k self
      → IsAfter start frames c (suc k) (process_frame self (frames k) c).1
        × ((process_frame self (frames k) c).0 ≡ (k == 23))
  unfolding process_frame
  step k h self a =
      let n : wrapping_sub (frames k).frame_count self.superframe_frame_count ≡ k =
        rw a.since (place k h) in
      let inside : leb 24 k ≡ false = ground arith in
      elim (Bool-cases (k % 6 == 5)) [
        | inl e ↦
            let after = carries k h ((==_iff (k % 6) 5).0 e) self a in
            rw (n, inside, e) (after, rw after.bits (last k))
        | inr e ↦
            let same : suc k / 6 ≡ k / 6 = ground (arith, e, ==_iff (k % 6) 5) in
            rw (n, inside, e)
              (
                record {
                  since = a.since;
                  bits = rw same a.bits;
                  timeslots = λ i. rw same (a.timeslots i);
                },
                ground (arith, e),
              )
      ]

  received : (k : ℕ) → k ≤ 24 → IsAfter start frames c k (receive start frames c k).1
  unfolding receive gathered
  received zero h = record { since = refl; bits = refl; timeslots = λ i. refl }
  received (suc k) h =
      (step k (omega arith) (receive start frames c k).1 (received k (omega arith))).0

  -- Of 24 frames in a row that begin with the one whose count started the superframe, only the
  -- last completes it, and then each timeslot holds the least bits of its bytes in the frames 5,
  -- 11, 17 and 23, the first on top.
  pub receive-superframe :
      (k i : ℕ)
      → k < 24
      → ((receive start frames c (suc k)).0 ≡ (k == 23))
        × ((receive start frames c 24).1.timeslot i
            ≡ bit (frames 5) c i * 8
              + bit (frames 11) c i * 4
              + bit (frames 17) c i * 2
              + bit (frames 23) c i)
  unfolding receive gathered
  receive-superframe k i h = (
    (step k h (receive start frames c k).1 (received k (omega arith))).1,
    omega (arith, (received 24 (omega arith)).timeslots i),
  )
