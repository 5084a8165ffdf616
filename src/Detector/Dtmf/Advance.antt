-- ===== src/Detector/Dtmf/Advance.antt =====
-- The three groups of filters stay in step, so `advance` never fails an assertion and never
-- reaches its `unreachable!()`.
use tedium.Common.{
  ℕ, suc, ◌+◌, ◌%◌, ◌≡◌, refl, Option, none, some, List, [], ◌∷◌, length, ap, ◌∙◌, ◌⊎◌, inl, inr,
  arith,
}
use tedium.Common.Outcome.{Outcome, ok, panic, unwrap, ◌>>=◌}
use tedium.Float.{Float}
use tedium.Detector.Event.{DetectionEvent}
use tedium.Detector.Group.{DetectorGroup, IsGroup, Advanced, iterate-IsGroup}
use tedium.Detector.Dtmf.{Detector, new, low_result, feed_detection, conclude, advance}
use tedium.Detector.Dtmf.Rank.{detect-Ends}

module _ (fl : Float) where
  open fl use {F}

  -- The second low group is half a round behind, and a high round is half a low one.
  pub record IsAligned (d : Detector fl) : Type 0 where
    pub low_0 : IsGroup fl 212 d.low_0
    pub low_1 : IsGroup fl 212 d.low_1
    pub tones_high : IsGroup fl 106 d.tones_high
    pub phase_low : d.low_1.iteration ≡ (d.low_0.iteration + 106) % 212
    pub phase_high : d.tones_high.iteration ≡ d.low_0.iteration % 106

  -- A step of the detector: a comparison panics, or it goes on in alignment.
  abbrev pub Steps : Detector fl → Outcome (Detector fl × Option DetectionEvent) → Type 0
  Steps d r =
      (r ≡ panic unwrap)
      ⊎ ((d' : Detector fl) × (e : Option DetectionEvent) × (r ≡ ok (d', e))
          × IsAligned d'
          × (d'.low_0.iteration ≡ (d.low_0.iteration + 1) % 212))

  IsAligned-feed_detection :
      (d : Detector fl) (x : Option ℕ) → IsAligned d → IsAligned (feed_detection fl d x).0
  unfolding feed_detection
  IsAligned-feed_detection d x v = record {
    low_0 = v.low_0;
    low_1 = v.low_1;
    tones_high = v.tones_high;
    phase_low = v.phase_low;
    phase_high = v.phase_high;
  }

  low_0-feed_detection :
      (d : Detector fl) (x : Option ℕ) → (feed_detection fl d x).0.low_0 ≡ d.low_0
  unfolding feed_detection
  low_0-feed_detection d x = refl

  feed-Steps :
      (d₀ d : Detector fl) (x : Option ℕ)
      → IsAligned d
      → d.low_0.iteration ≡ (d₀.low_0.iteration + 1) % 212
      → Steps d₀ (ok (feed_detection fl d x))
  feed-Steps d₀ d x v p = inr (
    (feed_detection fl d x).0,
    (feed_detection fl d x).1,
    refl,
    IsAligned-feed_detection d x v,
    ap (λ (g : DetectorGroup fl). g.iteration) (low_0-feed_detection d x) ∙ p,
  )

  quiet :
      (d₀ d : Detector fl) (low : Option (List F))
      → IsAligned d
      → d.low_0.iteration ≡ (d₀.low_0.iteration + 1) % 212
      → Steps d₀ (conclude fl d low none)
  unfolding conclude
  quiet d₀ d low v p = inr (d, none, refl, v, p)

  conclude-Steps :
      (d₀ d : Detector fl) (low high : List F)
      → IsAligned d
      → d.low_0.iteration ≡ (d₀.low_0.iteration + 1) % 212
      → length low ≡ 4
      → length high ≡ 4
      → Steps d₀ (conclude fl d (some low) (some high))
  unfolding conclude
  conclude-Steps d₀ d low high v p n m = elim (detect-Ends fl low high n m) [
    | inl e ↦ inl (rw e)
    | inr (key, e) ↦ rw e (feed-Steps d₀ d key v p)
  ]

  module _ (d : Detector fl) (g_0 g_1 g_h : DetectorGroup fl) (v : IsAligned d)
      (v_0 : IsGroup fl 212 g_0) (v_1 : IsGroup fl 212 g_1) (v_h : IsGroup fl 106 g_h) where
    abbrev moved : Detector fl
    moved = record d { low_0 = g_0; low_1 = g_1; tones_high = g_h }

    moved-IsAligned :
        g_0.iteration ≡ (d.low_0.iteration + 1) % 212
        → g_1.iteration ≡ (d.low_1.iteration + 1) % 212
        → g_h.iteration ≡ (d.tones_high.iteration + 1) % 106
        → IsAligned moved
    moved-IsAligned p q r = record {
      low_0 = v_0;
      low_1 = v_1;
      tones_high = v_h;
      phase_low = omega (arith, p, q, v.phase_low, v.low_0.in_round);
      phase_high = omega (arith, p, r, v.phase_high, v.low_0.in_round);
    }

    -- The results of the groups, in the cases that the phases leave.
    combine :
        (r_0 r_1 r_h : Option (List F))
        → Advanced fl 212 d.low_0 g_0 r_0
        → Advanced fl 212 d.low_1 g_1 r_1
        → Advanced fl 106 d.tones_high g_h r_h
        → Steps d (low_result fl r_0 r_1 >>= λ low. conclude fl moved low r_h)
    unfolding low_result
    combine r_0 r_1 r_h (inl (l_0, z_0, _)) (inl (l_1, z_1, _)) _ =
        absurd (omega (arith, l_0, l_1, v.phase_low))
    combine r_0 r_1 r_h (inl (l_0, z_0, (p, e, n))) (inr (l_1, z_1, e'))
          (inl (l_h, z_h, (q, f, m))) =
        rw (e, e', f)
          (conclude-Steps d moved p q (moved-IsAligned (omega arith) (omega arith) (omega arith))
            (omega arith) n m)
    combine r_0 r_1 r_h (inl (l_0, z_0, _)) (inr (l_1, z_1, _)) (inr (l_h, z_h, _)) =
        absurd (omega (arith, l_0, l_h, v.phase_high))
    combine r_0 r_1 r_h (inr (l_0, z_0, e)) (inl (l_1, z_1, (p, e', n)))
          (inl (l_h, z_h, (q, f, m))) =
        rw (e, e', f)
          (conclude-Steps d moved p q (moved-IsAligned (omega arith) (omega arith) (omega arith))
            (omega arith) n m)
    combine r_0 r_1 r_h (inr (l_0, z_0, _)) (inl (l_1, z_1, _)) (inr (l_h, z_h, _)) =
        absurd (omega (arith, l_1, l_h, v.phase_low, v.phase_high, v.low_0.in_round))
    combine r_0 r_1 r_h (inr (l_0, z_0, _)) (inr (l_1, z_1, _)) (inl (l_h, z_h, _)) =
        absurd (omega (arith, l_0, l_1, l_h, v.phase_low, v.phase_high))
    combine r_0 r_1 r_h (inr (l_0, z_0, e)) (inr (l_1, z_1, e')) (inr (l_h, z_h, f)) =
        rw (e, e', f)
          (quiet d moved none (moved-IsAligned (omega arith) (omega arith) (omega arith))
            (omega arith))

  -- From an aligned state `advance` takes one step and stays aligned: the assertion on the low
  -- results holds, a high result comes with a low one, and no index is out of bounds. It can
  -- only panic where the sort of the powers meets one that cannot be compared.
  pub advance-IsAligned : (d : Detector fl) (x : F) → IsAligned d → Steps d (advance fl d x)
  unfolding advance
  advance-IsAligned d x v =
      let (g_0, r_0, e_0, v_0, a_0) = iterate-IsGroup fl 212 d.low_0 x v.low_0 in
      let (g_1, r_1, e_1, v_1, a_1) = iterate-IsGroup fl 212 d.low_1 x v.low_1 in
      let (g_h, r_h, e_h, v_h, a_h) = iterate-IsGroup fl 106 d.tones_high x v.tones_high in
      rw (e_0, e_1, e_h) (combine d g_0 g_1 g_h v v_0 v_1 v_h r_0 r_1 r_h a_0 a_1 a_h)

  pub new-IsAligned : IsAligned (new fl)
  unfolding new
  new-IsAligned = record {
    low_0 = record {
      length_kept = refl;
      in_round = omega arith;
      four = refl;
      filters = (refl, (refl, (refl, (refl, tt))));
    };
    low_1 = record {
      length_kept = refl;
      in_round = omega arith;
      four = refl;
      filters = (refl, (refl, (refl, (refl, tt))));
    };
    tones_high = record {
      length_kept = refl;
      in_round = omega arith;
      four = refl;
      filters = (refl, (refl, (refl, (refl, tt))));
    };
    phase_low = refl;
    phase_high = refl;
  }

  -- The calls of `advance` on a stream of samples, with the events that they return.
  pub run : Detector fl → List F → Outcome (Detector fl × List (Option DetectionEvent))
  run d [] = ok (d, [])
  run d (x ∷ xs) = do (d', e) ← advance fl d x; (d'', es) ← run d' xs; ok (d'', e ∷ es)

  -- A stream of samples of any length makes the detector panic only on an incomparable power;
  -- otherwise there is one result for each sample, and the groups are in step after it.
  pub run-IsAligned :
      (xs : List F) (d : Detector fl)
      → IsAligned d
      → (run d xs ≡ panic unwrap)
        ⊎ ((d' : Detector fl) × (es : List (Option DetectionEvent)) × (run d xs ≡ ok (d', es))
            × IsAligned d'
            × (length es ≡ length xs)
            × (d'.low_0.iteration ≡ (d.low_0.iteration + length xs) % 212))
  unfolding run
  run-IsAligned [] d v = inr (d, [], refl, v, refl, omega (arith, v.low_0.in_round))
  run-IsAligned (x ∷ xs) d v = elim (advance-IsAligned d x v) [
    | inl e ↦ inl (rw e)
    | inr (d', event, e, v', p) ↦ elim (run-IsAligned xs d' v') [
      | inl f ↦ inl (rw (e, f))
      | inr (d'', es, f, v'', n, q) ↦
          inr (d'', event ∷ es, rw (e, f), v'', ap suc n, omega (arith, p, q))
    ]
  ]
