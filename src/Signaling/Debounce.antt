-- ===== src/Signaling/Debounce.antt =====
-- What a listener learns of the signaling state, and when the state changes.
use tedium.Common.{
  ℕ, zero, suc, ◌+◌, ◌<◌, ◌≡◌, refl, sym, ◌∙◌, inl, inr, true, ◌&&◌, Bool-cases, ◌==◌, leb, ltb,
  List, [], ◌∷◌, ◌++◌, arith, ℕ_discrete, if◌then◌else◌,
}
use tedium.Signaling.{
  InternalFrame, RobbedBitDebouncer, Change, settled, changes, accept, debounce, signal, mf,
  new_frame, process_frame,
}

-- A listener that keeps the last value it was told of each timeslot.
unfoldable pub hear : (ℕ → ℕ) → List Change → ℕ → ℕ
hear view [] i = view i
hear view (change ∷ rest) i =
    hear (λ j. if change.timeslot_address.timeslot == j then change.rbs_state else view j) rest i

hear-append :
    (xs ys : List Change) (view : ℕ → ℕ) (i : ℕ) → hear view (xs ++ ys) i ≡ hear (hear view xs) ys i
unfolding hear
hear-append [] ys view i = refl
hear-append (x ∷ xs) ys view i = hear-append xs ys _ i

-- The loop tells of the settled timeslots, and of no other.
hear-changes :
    (count : ℕ) (d : RobbedBitDebouncer) (c k : ℕ) (view : ℕ → ℕ) (i : ℕ)
    → hear view (changes d c k count) i
      ≡ (if leb k i && (ltb i (k + count) && settled d i) then d.accumulator.timeslot i else view i)
unfolding hear changes
hear-changes zero d c k view i = ground arith
hear-changes (suc count) d c k view i = elim (ℕ_discrete k i) [
  | yes p ↦ rw (sym p) (elim (Bool-cases (settled d k)) [
    | inl e ↦
        rw
          (
            e,
            hear-changes count d c (suc k)
                (λ j. if k == j then d.accumulator.timeslot k else view j) k,
          )
          (ground (arith, e))
    | inr e ↦ rw (e, hear-changes count d c (suc k) view k) (ground (arith, e))
  ])
  | no n ↦ elim (Bool-cases (settled d k)) [
    | inl e ↦
        rw
          (
            e,
            hear-changes count d c (suc k)
                (λ j. if k == j then d.accumulator.timeslot k else view j) i,
          )
          (ground (arith, n))
    | inr e ↦ rw (e, hear-changes count d c (suc k) view i) (ground (arith, n))
  ]
]

-- One frame, then any number of them.
hear-debounce :
    (d : RobbedBitDebouncer) (f : InternalFrame) (c i : ℕ)
    → i < 24
    → hear d.state.timeslot (debounce d f c).1 i ≡ (debounce d f c).0.state.timeslot i
unfolding debounce accept hear
hear-debounce d f c i h =
    let acc = (process_frame d.accumulator f c).1 in
    let next : RobbedBitDebouncer = record {
      state = d.state;
      accumulator = acc;
      history = d.history;
    } in
    elim (Bool-cases (process_frame d.accumulator f c).0) [
      | inl e ↦
          let inside : ltb i 24 ≡ true = ground arith in
          let from : leb 0 i ≡ true = ground arith in
          rw (e, hear-changes 24 next c 0 d.state.timeslot i, inside, from) refl
      | inr e ↦ rw e refl
    ]

pub run : RobbedBitDebouncer → List InternalFrame → ℕ → RobbedBitDebouncer × List Change
run d [] c = (d, [])
run d (f ∷ fs) c =
    let (d', out) = signal d f c in let (d'', more) = run d' fs c in (d'', out ++ more)

hear-cong :
    (xs : List Change) (view view' : ℕ → ℕ) (i : ℕ)
    → view i ≡ view' i
    → hear view xs i ≡ hear view' xs i
unfolding hear
hear-cong [] view view' i e = e
hear-cong (x ∷ xs) view view' i e = hear-cong xs _ _ i (rw e refl)

pub hear-signal :
    (d : RobbedBitDebouncer) (f : InternalFrame) (c i : ℕ)
    → i < 24
    → hear d.state.timeslot (signal d f c).1 i ≡ (signal d f c).0.state.timeslot i
unfolding signal
hear-signal d f c i h = elim (Bool-cases (mf f c)) [
  | inl e ↦ rw e (hear-debounce (new_frame d f.frame_count) f c i h)
  | inr e ↦ rw e (hear-debounce d f c i h)
]

-- Whatever frames arrive, a listener that knew the state of a timeslot before them and hears the
-- changes knows it after them.
pub hear-run :
    (fs : List InternalFrame) (d : RobbedBitDebouncer) (c i : ℕ)
    → i < 24
    → hear d.state.timeslot (run d fs c).1 i ≡ (run d fs c).0.state.timeslot i
unfolding run hear
hear-run [] d c i h = refl
hear-run (f ∷ fs) d c i h =
    let d' = (signal d f c).0 in
    hear-append (signal d f c).1 (run d' fs c).1 d.state.timeslot i
    ∙ hear-cong (run d' fs c).1 _ _ i (hear-signal d f c i h)
    ∙ hear-run fs d' c i h
