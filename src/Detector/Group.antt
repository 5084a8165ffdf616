-- ===== src/Detector/Group.antt =====
-- Four Goertzel filters that run in step (`DetectorGroup` of detector/dtmf.rs).
use tedium.Common.{
  ℕ, suc, ◌+◌, ◌<◌, ◌≡◌, refl, ap, true, Option, none, some, List, [], ◌∷◌, map, ltb, ◌==◌,
  if◌then◌else◌, arith, All, length, lt→ltb, ==_iff, Bool-cases, ◌⊎◌, inl, inr, ◌≢◌, ◌∙◌,
}
use tedium.Common.Outcome.{Outcome, ok, ◌>>=◌, ◌>>◌, assert}
use tedium.Float.{Float}
use tedium.Detector.Goertzel
use tedium.Detector.Goertzel.{GoertzelDetector}

pub record DetectorGroup (fl : Float) : Type 0 where
  pub detectors : List (GoertzelDetector fl)
  pub n : ℕ
  pub iteration : ℕ

module _ (fl : Float) where
  open fl use {F}

  unfoldable pub new : List F → ℕ → ℕ → DetectorGroup fl
  unfolding Goertzel.from_hz
  new frequencies n initial_iteration = record {
    detectors = map (λ f. Goertzel.from_hz fl f n) frequencies;
    n = n;
    iteration = initial_iteration;
  }

  -- The powers of the filters, each with its state cleared.
  unfoldable pub poll_all : List (GoertzelDetector fl) → List F × List (GoertzelDetector fl)
  poll_all [] = ([], [])
  poll_all (d ∷ ds) =
      let (power, d') = Goertzel.poll fl d in
      let (powers, ds') = poll_all ds in (power ∷ powers, d' ∷ ds')

  unfoldable pub iterate_all :
      List (GoertzelDetector fl) → ℕ → F → Outcome (List (GoertzelDetector fl))
  iterate_all [] iteration x_n = ok []
  iterate_all (d ∷ ds) iteration x_n = do
    d' ← Goertzel.iterate fl d iteration x_n
    ds' ← iterate_all ds iteration x_n
    ok (d' ∷ ds')

  unfoldable pub iterate : DetectorGroup fl → F → Outcome (DetectorGroup fl × Option (List F))
  iterate g x_n = do
    assert (ltb g.iteration g.n)
    detectors ← iterate_all g.detectors g.iteration x_n
    let iteration = g.iteration + 1
    let (powers, cleared) = poll_all detectors
    ok (
        if iteration == g.n
        then (record g { detectors = cleared; iteration = 0 }, some powers)
        else (record g { detectors = detectors; iteration = iteration }, none))

  -- A group of four filters of length `n`, in the middle of a round.
  pub record IsGroup (n : ℕ) (g : DetectorGroup fl) : Type 0 where
    pub length_kept : g.n ≡ n
    pub in_round : g.iteration < n
    pub four : length g.detectors ≡ 4
    pub filters : All (λ d. d.n ≡ n) g.detectors

  iterate_one :
      (n : ℕ) (d : GoertzelDetector fl) (i : ℕ) (x : F)
      → d.n ≡ n
      → i < n
      → (d' : GoertzelDetector fl) × (Goertzel.iterate fl d i x ≡ ok d') × (d'.n ≡ n)
  unfolding Goertzel.iterate
  iterate_one n d i x e h =
      let passes : ltb i d.n ≡ true = lt→ltb i d.n (omega arith) in
      (Goertzel.step fl d x, rw passes, e)

  iterate_all_lem :
      (n : ℕ) (ds : List (GoertzelDetector fl)) (i : ℕ) (x : F)
      → All (λ d. d.n ≡ n) ds
      → i < n
      → (ds' : List (GoertzelDetector fl)) × (iterate_all ds i x ≡ ok ds')
        × (length ds' ≡ length ds)
        × All (λ d. d.n ≡ n) ds'
  unfolding iterate_all
  iterate_all_lem n [] i x a h = ([], refl, refl, tt)
  iterate_all_lem n (d ∷ ds) i x a h =
      let (d', e, k) = iterate_one n d i x a.0 h in
      let (ds', es, len, ks) = iterate_all_lem n ds i x a.1 h in
      (d' ∷ ds', rw (e, es), ap suc len, (k, ks))

  poll_all_lem :
      (n : ℕ) (ds : List (GoertzelDetector fl))
      → All (λ d. d.n ≡ n) ds
      → (length (poll_all ds).0 ≡ length ds)
        × (length (poll_all ds).1 ≡ length ds)
        × All (λ d. d.n ≡ n) (poll_all ds).1
  unfolding poll_all Goertzel.poll
  poll_all_lem n [] a = (refl, refl, tt)
  poll_all_lem n (d ∷ ds) a =
      let (p, q, r) = poll_all_lem n ds a.1 in (ap suc p, ap suc q, (a.0, r))

  -- A round ends with the powers of the four filters, or goes on.
  abbrev pub Advanced : ℕ → DetectorGroup fl → DetectorGroup fl → Option (List F) → Type 0
  Advanced n g g' r =
      ((suc g.iteration ≡ n) × (g'.iteration ≡ 0) × ((p : List F) × (r ≡ some p) × (length p ≡ 4)))
      ⊎ ((suc g.iteration < n) × (g'.iteration ≡ suc g.iteration) × (r ≡ none))

  -- A group never fails its assertions, and reports its powers on the last sample of a round.
  pub iterate-IsGroup :
      (n : ℕ) (g : DetectorGroup fl) (x : F)
      → IsGroup n g
      → (g' : DetectorGroup fl) × (r : Option (List F)) × (iterate g x ≡ ok (g', r))
        × IsGroup n g'
        × Advanced n g g' r
  unfolding iterate
  iterate-IsGroup n g x v =
      let (ds, e, len, k) = iterate_all_lem n g.detectors g.iteration x v.filters v.in_round in
      let passes : ltb g.iteration g.n ≡ true = lt→ltb _ _ (rw v.length_kept v.in_round) in
      let (powers_len, cleared_len, cleared_n) = poll_all_lem n ds k in
      elim (Bool-cases (g.iteration + 1 == g.n)) [
        | inl last ↦
            let at_end : g.iteration + 1 ≡ n = (==_iff _ _).0 last ∙ v.length_kept in
            (
              record g { detectors = (poll_all ds).1; iteration = 0 },
              some (poll_all ds).0,
              rw (passes, e, last),
              record {
                length_kept = v.length_kept;
                in_round = omega arith;
                four = cleared_len ∙ len ∙ v.four;
                filters = cleared_n;
              },
              inl (omega arith, refl, ((poll_all ds).0, refl, powers_len ∙ len ∙ v.four)),
            )
        | inr more ↦
            let not_end : g.iteration + 1 ≢ g.n = λ h. cc (more, (==_iff _ _).1 h) in
            let goes_on : g.iteration + 1 < n = omega (arith, not_end, v.length_kept, v.in_round) in
            (
              record g { detectors = ds; iteration = g.iteration + 1 },
              none,
              rw (passes, e, more),
              record {
                length_kept = v.length_kept;
                in_round = goes_on;
                four = len ∙ v.four;
                filters = k;
              },
              inr (omega arith, omega arith, refl),
            )
      ]
