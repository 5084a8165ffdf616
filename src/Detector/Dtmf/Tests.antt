-- ===== src/Detector/Dtmf/Tests.antt =====
-- The detector over whole numbers in place of floats, at concrete powers and samples.
use tedium.Common.{arith, ◌+◌, ◌%◌, ◌≡◌, refl, Option, some, List, [], ◌∷◌, length, ◌⊎◌, replicate}
use tedium.Common.Int.{ℤ, pos, negsuc}
use tedium.Common.Outcome.{ok, panic, unwrap}
use tedium.Float.Integers.{integers}
use tedium.Detector.Event.{DetectionEvent}
use tedium.Detector.Dtmf.{
  Detector, new, detect, detect_high, key_at, strongest, sort_by_power, number_from,
  insert_by_power, stands_out, twist_ok, key_map,
}
use tedium.Detector.Dtmf.Sort.{IsOrder}
use tedium.Detector.Dtmf.Verdict.{Judges, detect-Judges}
use tedium.Detector.Dtmf.Advance.{IsAligned, new-IsAligned, run, run-IsAligned}

abbrev lows : List ℤ
lows = negsuc 39 ∷ negsuc 14 ∷ negsuc 44 ∷ negsuc 49 ∷ []

abbrev highs : List ℤ
highs = negsuc 39 ∷ negsuc 44 ∷ negsuc 11 ∷ negsuc 49 ∷ []

-- -15 dB in the second row and -12 dB in the third column are a 6.
six : detect integers lows highs ≡ ok (some b'6')
unfolding detect detect_high key_at strongest sort_by_power number_from insert_by_power stands_out
    twist_ok key_map
six = refl

integers-IsOrder : IsOrder integers
integers-IsOrder = record {
  lt_dual = λ x y e. ground arith;
  gt_dual = λ x y e. ground arith;
  gt_trans = λ x y z e f. ground arith;
  gt_eq = λ x y z e f. ground arith;
}

detect-Judges_example : Judges integers lows highs (detect integers lows highs)
detect-Judges_example = detect-Judges integers integers-IsOrder lows highs refl refl

run-IsAligned_example :
    (run integers (new integers) (replicate 300 (pos 1)) ≡ panic unwrap)
    ⊎ ((d' : Detector integers) × (es : List (Option DetectionEvent)) × (run integers
            (new integers)
            (replicate 300 (pos 1))
          ≡ ok (d', es))
        × IsAligned integers d'
        × (length es ≡ length (replicate 300 (pos 1)))
        × (d'.low_0.iteration
            ≡ ((new integers).low_0.iteration + length (replicate 300 (pos 1))) % 212))
run-IsAligned_example =
    run-IsAligned integers (replicate 300 (pos 1)) (new integers) (new-IsAligned integers)
