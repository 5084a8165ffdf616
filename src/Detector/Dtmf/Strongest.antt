-- ===== src/Detector/Dtmf/Strongest.antt =====
-- The strongest tone of a group and the next (`powers[0]` and `powers[1]` of `Detector::detect`).
use tedium.Common.{
  ◌≢◌, ℕ, zero, suc, ◌+◌, ◌≡◌, refl, ap, ap₂, sym, subst, some, List, [], ◌∷◌, get_elem?, All,
  length, ◌⊎◌, inl, inr, arith,
}
use tedium.Common.Outcome.{ok, panic, unwrap}
use native.Mathlib.Nat.{add-zero, zero-add}
use tedium.Float.{Float}
use tedium.Detector.Dtmf.{number_from, strongest}
use tedium.Detector.Dtmf.Sort.{
  IsOrder, Precedes, HasIncomparable, Placed, All-weaken, Ranks, sort_by_power_lem,
}

module _ (fl : Float) where
  open fl use {F, partial_cmp}

  -- The tone `x` precedes all others of the group, and `next` is the power of the tone that precedes
  -- all others but `x`.
  pub record IsStrongest (powers : List F) (x : ℕ × F) (next : F) : Type 0 where
    pub second : ℕ
    pub at_first : get_elem? powers x.0 ≡ some x.1
    pub at_second : get_elem? powers second ≡ some next
    pub other : x.0 ≢ second
    pub above : Precedes fl x (second, next)
    pub below :
        (j : ℕ) (q : F)
        → get_elem? powers j ≡ some q
        → (j ≡ x.0) ⊎ ((j ≡ second) ⊎ Precedes fl (second, next) (j, q))

  module _ (order : IsOrder fl) (powers : List F) where
    open order use {gt_dual}

    number_from-Placed :
        (i : ℕ) (ps : List F)
        → ((k : ℕ) (p : F) → get_elem? ps k ≡ some p → get_elem? powers (k + i) ≡ some p)
        → All (Placed fl powers) (number_from fl i ps)
    unfolding number_from
    number_from-Placed i [] h = tt
    number_from-Placed i (p ∷ ps) h = (
      subst (λ j. get_elem? powers j ≡ some p) (zero-add i) (h 0 p refl),
      number_from-Placed (suc i) ps
          (λ k q e. subst (λ j. get_elem? powers j ≡ some q) (omega arith) (h (suc k) q e)),
    )

    number_from-get :
        (P : ℕ × F → Type 0) (i : ℕ) (ps : List F) (k : ℕ) (q : F)
        → All P (number_from fl i ps)
        → get_elem? ps k ≡ some q
        → P (k + i, q)
    unfolding number_from
    number_from-get P i [] k q h e = absurd (cc e)
    number_from-get P i (p ∷ ps) zero q h e =
        let same : p ≡ q = cc e in subst P (ap₂ (λ k r. (k, r)) (sym (zero-add i)) same) h.0
    number_from-get P i (p ∷ ps) (suc k) q h e =
        subst (λ j. P (j, q)) (omega arith) (number_from-get P (suc i) ps k q h.1 e)

    length-number_from : (i : ℕ) (ps : List F) → length (number_from fl i ps) ≡ length ps
    unfolding number_from
    length-number_from i [] = refl
    length-number_from i (p ∷ ps) = ap suc (length-number_from (suc i) ps)

    -- A tone precedes none of its own place.
    not-Precedes_self :
        (x : ℕ × F) (j : ℕ) (q : F)
        → get_elem? powers x.0 ≡ some x.1
        → get_elem? powers j ≡ some q
        → Precedes fl x (j, q)
        → x.0 ≢ j
    not-Precedes_self x j q e f (inl g) same =
        let equal : x.1 ≡ q = cc (e, f, same) in
        let back = gt_dual x.1 q g in absurd (cc (g, back, equal))
    not-Precedes_self x j q e f (inr (_, l)) same = omega (arith, l, same)

    first_two :
        (zs : List (ℕ × F))
        → Ranks fl (number_from fl 0 powers) [] zs
        → length powers ≡ 4
        → (x : ℕ × F) × (y : ℕ × F) × (get_elem? zs 0 ≡ some x)
          × (get_elem? zs 1 ≡ some y)
          × IsStrongest powers x y.1
    first_two [] r four = absurd (omega (arith, r.counts, four, length-number_from 0 powers))
    first_two (x ∷ []) r four = absurd (omega (arith, r.counts, four, length-number_from 0 powers))
    first_two (x ∷ y ∷ zs) r four =
        let placed =
          r.keeps (Placed fl powers)
            (number_from-Placed 0 powers
              (λ k p e. subst (λ j. get_elem? powers j ≡ some p) (sym (add-zero k)) e))
            tt in
        let ranked = r.ranked in
        let ordered =
          r.all_of (λ z. (z.0 ≡ x.0) ⊎ ((z.0 ≡ y.0) ⊎ Precedes fl y z))
            (
              inl refl,
              (
                inr (inl refl),
                All-weaken fl (Precedes fl y) (λ z. (z.0 ≡ x.0) ⊎ ((z.0 ≡ y.0) ⊎ Precedes fl y z))
                    zs (λ z p. inr (inr p)) ranked.1.0,
              ),
            ) in
        (
          x,
          y,
          refl,
          refl,
          record {
            second = y.0;
            at_first = placed.0;
            at_second = placed.1.0;
            other = not-Precedes_self x y.0 y.1 placed.0 placed.1.0 ranked.0.0;
            above = ranked.0.0;
            below = λ j q e.
                subst (λ k. (k ≡ x.0) ⊎ ((k ≡ y.0) ⊎ Precedes fl y (k, q))) (add-zero j)
                  (number_from-get (λ z. (z.0 ≡ x.0) ⊎ ((z.0 ≡ y.0) ⊎ Precedes fl y z)) 0 powers j q
                    ordered.0 e);
          },
        )

    -- The sort fails where two tones cannot be compared, or finds the strongest tone and the next.
    pub strongest-IsStrongest :
        length powers ≡ 4
        → ((strongest fl powers ≡ panic unwrap) × HasIncomparable fl powers)
          ⊎ ((x : ℕ × F) × (next : F) × (strongest fl powers ≡ ok (x, next))
              × IsStrongest powers x next)
    unfolding strongest
    strongest-IsStrongest four =
        elim (sort_by_power_lem fl order powers 0 powers []
          (number_from-Placed 0 powers
            (λ k p e. subst (λ j. get_elem? powers j ≡ some p) (sym (add-zero k)) e))
          tt tt tt) [
            | inl (e, bad) ↦ inl (rw e, bad)
            | inr (zs, e, r) ↦
                let (x, y, ex, ey, strong) = first_two zs r four in
                inr (x, y.1, rw (e, ex, ey), strong)
          ]
