-- ===== src/Detector/Dtmf.antt =====
-- The DTMF detector (`Detector` of detector/dtmf.rs): two groups of filters for the low tones, a
-- half round apart, one for the high tones, and the choice of a key by the strongest two tones.
pub mod Rank
pub mod Sort
pub mod Strongest
pub mod Verdict
pub mod Advance
mod Tests
use tedium.Common.{
  ℕ, zero, suc, Bool, true, false, not, Option, none, some, List, [], ◌∷◌, get_elem?, if◌then◌else◌,
}
use tedium.Common.Int.{ℤ, pos, negsuc}
use tedium.Common.Outcome.{
  Outcome, ok, panic, assertion, unreachable, unwrap, out_of_bounds, ◌>>=◌, ◌>>◌, assert,
}
use Prim.Native.Nat.{Ordering}
use tedium.Float.{Float, lt_f32, contains}
use tedium.Detector.Event.{DetectionEvent}
use tedium.Detector.Group
use tedium.Detector.Group.{DetectorGroup}
use tedium.Detector.StateMachine
use tedium.Detector.StateMachine.{DetectionStateMachine}

-- `KEY_MAP`, by row and column.
key_map : List (List ℕ)
key_map =
    (b'1' ∷ b'2' ∷ b'3' ∷ b'A' ∷ [])
    ∷ (b'4' ∷ b'5' ∷ b'6' ∷ b'B' ∷ [])
    ∷ (b'7' ∷ b'8' ∷ b'9' ∷ b'C' ∷ [])
    ∷ (b'*' ∷ b'0' ∷ b'#' ∷ b'D' ∷ [])
    ∷ []

-- `xs[i]`.
abbrev pub index {ℓ} : {A : Type ℓ} → Option A → Outcome A
index (some x) = ok x
index none = panic out_of_bounds

pub key_at : ℕ → ℕ → Outcome ℕ
key_at row column = do keys ← index (get_elem? key_map row); index (get_elem? keys column)

pub record Detector (fl : Float) : Type 0 where
  -- `tones_low[0]` and `tones_low[1]`
  pub low_0 : DetectorGroup fl
  pub low_1 : DetectorGroup fl
  pub tones_high : DetectorGroup fl
  pub state_machine : DetectionStateMachine

module _ (fl : Float) where
  open fl use {F, lit, sub, partial_cmp}

  frequencies_low : List F
  frequencies_low = lit (pos 697) 1 ∷ lit (pos 770) 1 ∷ lit (pos 852) 1 ∷ lit (pos 941) 1 ∷ []

  frequencies_high : List F
  frequencies_high = lit (pos 1209) 1 ∷ lit (pos 1336) 1 ∷ lit (pos 1477) 1 ∷ lit (pos 1633) 1 ∷ []

  unfoldable pub new : Detector fl
  unfolding frequencies_low frequencies_high Group.new
  new = record {
    low_0 = Group.new fl frequencies_low 212 0;
    low_1 = Group.new fl frequencies_low 212 106;
    tones_high = Group.new fl frequencies_high 106 0;
    state_machine = StateMachine.new;
  }

  -- `[0, 1, 2, 3].map(|n| (n, powers[n]))`.
  pub number_from : ℕ → List F → List (ℕ × F)
  number_from i [] = []
  number_from i (p ∷ ps) = (i, p) ∷ number_from (suc i) ps

  -- The place of `x` in a list that is sorted, by `y.partial_cmp(&x).unwrap()` for the head `y`.
  place :
      Option Ordering
      → ℕ × F
      → ℕ × F
      → List (ℕ × F)
      → Outcome (List (ℕ × F))
      → Outcome (List (ℕ × F))
  place none x y ys rest = panic unwrap
  place (some Ordering.lt) x y ys rest = ok (x ∷ y ∷ ys)
  place (some Ordering.eq) x y ys rest = rest >>= λ zs. ok (y ∷ zs)
  place (some Ordering.gt) x y ys rest = rest >>= λ zs. ok (y ∷ zs)

  -- `sort_by(|a, b| b.1.partial_cmp(&a.1).unwrap())`: a stable sort, the strongest first.
  insert_by_power : ℕ × F → List (ℕ × F) → Outcome (List (ℕ × F))
  unfolding place
  insert_by_power x [] = ok (x ∷ [])
  insert_by_power x (y ∷ ys) = place (partial_cmp y.1 x.1) x y ys (insert_by_power x ys)

  pub sort_by_power : List (ℕ × F) → List (ℕ × F) → Outcome (List (ℕ × F))
  sort_by_power sorted [] = ok sorted
  sort_by_power sorted (x ∷ xs) = do sorted' ← insert_by_power x sorted; sort_by_power sorted' xs

  -- The strongest tone, and the power of the next: `powers[0]` and `powers[1].1`.
  pub strongest : List F → Outcome ((ℕ × F) × F)
  strongest powers = do
    ranked ← sort_by_power [] (number_from 0 powers)
    first ← index (get_elem? ranked 0)
    second ← index (get_elem? ranked 1)
    ok (first, second.1)

  -- Is the tone in `DETECT_POWER_RANGE`, and 10 dB above the next?
  pub stands_out : F → F → Bool
  stands_out power_max next =
      if not (contains fl (lit (negsuc 24) 1) (lit (pos 0) 1) power_max)
      then false
      else not (lt_f32 fl (sub power_max next) (lit (pos 10) 1))

  pub twist_ok : F → F → Bool
  twist_ok low high = contains fl (lit (negsuc 7) 1) (lit (pos 4) 1) (sub high low)

  -- `detect` once the low tone has passed.
  detect_high : ℕ × F → List F → Outcome (Option ℕ)
  detect_high low high_powers = do
    (high, high_next) ← strongest high_powers
    let key = key_at low.0 high.0 >>= λ k. ok (some k)
    let twisted = if not (twist_ok low.1 high.1) then ok none else key
    if not (stands_out high.1 high_next) then ok none else twisted

  pub detect : List F → List F → Outcome (Option ℕ)
  detect low_powers high_powers = do
    (low, low_next) ← strongest low_powers
    let rest = detect_high low high_powers
    if not (stands_out low.1 low_next) then ok none else rest

  -- `assert!(low_result.is_none())` when the second group has a result.
  low_result : Option (List F) → Option (List F) → Outcome (Option (List F))
  low_result r none = ok r
  low_result none (some powers) = ok (some powers)
  low_result (some _) (some powers) = panic assertion

  -- `self.state_machine.feed(detection)`.
  pub feed_detection : Detector fl → Option ℕ → Detector fl × Option DetectionEvent
  feed_detection d detection =
      let (m, event) = StateMachine.feed d.state_machine detection in
      (record d { state_machine = m }, event)

  -- The end of a round of the high tones.
  conclude :
      Detector fl
      → Option (List F)
      → Option (List F)
      → Outcome (Detector fl × Option DetectionEvent)
  conclude d low none = ok (d, none)
  conclude d none (some high) = panic unreachable
  conclude d (some low) (some high) = do
    detection ← detect low high
    ok (feed_detection d detection)

  unfoldable pub advance : Detector fl → F → Outcome (Detector fl × Option DetectionEvent)
  unfolding low_result conclude
  advance d x_n = do
    (low_0, r_0) ← Group.iterate fl d.low_0 x_n
    (low_1, r_1) ← Group.iterate fl d.low_1 x_n
    low ← low_result r_0 r_1
    (tones_high, high) ← Group.iterate fl d.tones_high x_n
    conclude (record d { low_0 = low_0; low_1 = low_1; tones_high = tones_high }) low high
