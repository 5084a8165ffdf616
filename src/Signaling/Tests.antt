-- ===== src/Signaling/Tests.antt =====
-- Two superframes in which every timeslot of channel 3 goes off hook.
use tedium.Common.{
  ℕ, ◌+◌, ◌*◌, ◌%◌, ◌^◌, ◌<◌, ◌≡◌, refl, true, false, ◌==◌, List, [], ◌∷◌, length, arith,
  if◌then◌else◌,
}
use tedium.Signaling.{InternalFrame, new}
use tedium.Signaling.Superframe.{bit, receive, receive-superframe}
use tedium.Signaling.Debounce.{hear, run, hear-run}
use tedium.Signaling.Settle.{signals, abcd, IsSuperframe, signals-twice}
use tedium.Signaling.Continuity.{missing, final, missing-counts}
use tedium.Signaling.ExtendedSuperFrame

-- A frame whose bytes are odd: each signaling bit is 1.
abbrev off_hook : ℕ → ℕ → InternalFrame
off_hook start k = record {
  frame = λ timeslot channel. 2 * timeslot + 1;
  frame_count = (start + k) % 2 ^ 32;
  mf_bits = if k == 0 then 0xff else 0;
}

receive-superframe_example :
    ((receive 48 (off_hook 48) 3 24).0 ≡ (23 == 23))
    × ((receive 48 (off_hook 48) 3 24).1.timeslot 7
        ≡ bit (off_hook 48 5) 3 7 * 8
          + bit (off_hook 48 11) 3 7 * 4
          + bit (off_hook 48 17) 3 7 * 2
          + bit (off_hook 48 23) 3 7)
receive-superframe_example =
    receive-superframe 48 (omega arith) (off_hook 48) 3 (λ k. refl) 23 7 (omega arith)

off_hook-IsSuperframe : (start : ℕ) → start < 2 ^ 32 → IsSuperframe start (off_hook start) 3
off_hook-IsSuperframe start h = record {
  below = h;
  follow = λ k. refl;
  marked = λ k l. ground arith;
}

signals-twice_example :
    let once = (signals new (off_hook 48) 3 24).0 in
    let twice = (signals once (off_hook 72) 3 24).0 in
    (twice.state.timeslot 7 ≡ (
      if abcd (off_hook 72) 3 7 == abcd (off_hook 48) 3 7
      then abcd (off_hook 72) 3 7
      else once.state.timeslot 7))
    × ((signals new (off_hook 48) 3 23).1 ≡ [])
    × ((signals once (off_hook 72) 3 23).1 ≡ [])
signals-twice_example =
    signals-twice new 48 72 (off_hook 48) (off_hook 72) 3 7 22
      (off_hook-IsSuperframe 48 (omega arith)) (off_hook-IsSuperframe 72 (omega arith))
      (omega arith)

abbrev three_frames : List InternalFrame
three_frames = off_hook 48 0 ∷ off_hook 48 5 ∷ off_hook 48 23 ∷ []

hear-run_example :
    hear (λ _. 5) (run new three_frames 3).1 7 ≡ (run new three_frames 3).0.state.timeslot 7
hear-run_example = hear-run three_frames new 3 7 (omega arith)

abbrev counts : List ℕ
counts = 11 ∷ 14 ∷ 15 ∷ []

missing-counts_example : (10 + length counts + missing 10 counts) % 2 ^ 32 ≡ final 10 counts
missing-counts_example = missing-counts counts 10 (omega arith) (omega arith)

process_frame-incomplete_example :
    (ExtendedSuperFrame.process_frame
      (ExtendedSuperFrame.run (ExtendedSuperFrame.from_timestamp 48) ((off_hook 48 0, true) ∷ []))
      (off_hook 48 23)
      false).0
    ≡ false
process_frame-incomplete_example =
    ExtendedSuperFrame.process_frame-incomplete 48 ((off_hook 48 0, true) ∷ []) (off_hook 48 23)
      false
