-- ===== src/Detector/Dtmf/Sort.antt =====
-- The sort of the powers of a group (`sort_by` in `Detector::detect` of detector/dtmf.rs).
use tedium.Common.{
  ℕ, suc, ◌+◌, ◌<◌, ◌≡◌, refl, Option, none, some, List, [], ◌∷◌, get_elem?, All, length, ◌⊎◌, inl,
  inr, arith,
}
use tedium.Common.Outcome.{Outcome, ok, panic, unwrap, ◌>>=◌}
use Prim.Native.Nat.{Ordering}
use tedium.Float.{Float}
use tedium.Detector.Dtmf.{number_from, place, insert_by_power, sort_by_power}

module _ (fl : Float) where
  open fl use {F, partial_cmp}

  -- What the documentation of `PartialOrd` asks of `partial_cmp`: it is dual and transitive.
  pub record IsOrder : Type 0 where
    pub lt_dual :
        (x y : F) → partial_cmp x y ≡ some Ordering.lt → partial_cmp y x ≡ some Ordering.gt
    pub gt_dual :
        (x y : F) → partial_cmp x y ≡ some Ordering.gt → partial_cmp y x ≡ some Ordering.lt
    pub gt_trans :
        (x y z : F)
        → partial_cmp x y ≡ some Ordering.gt
        → partial_cmp y z ≡ some Ordering.gt
        → partial_cmp x z ≡ some Ordering.gt
    pub gt_eq :
        (x y z : F)
        → partial_cmp x y ≡ some Ordering.gt
        → partial_cmp y z ≡ some Ordering.eq
        → partial_cmp x z ≡ some Ordering.gt

  -- The tone `x` ranks before `y`: it is stronger, or as strong and earlier in the group.
  abbrev pub Precedes : ℕ × F → ℕ × F → Type 0
  Precedes x y =
      (partial_cmp x.1 y.1 ≡ some Ordering.gt)
      ⊎ ((partial_cmp x.1 y.1 ≡ some Ordering.eq) × (x.0 < y.0))

  -- Two tones of the group have powers that cannot be compared.
  pub record HasIncomparable (powers : List F) : Type 0 where
    pub first : ℕ
    pub second : ℕ
    pub p : F
    pub q : F
    pub at_first : get_elem? powers first ≡ some p
    pub at_second : get_elem? powers second ≡ some q
    pub earlier : first < second
    pub incomparable : (partial_cmp p q ≡ none)

  abbrev pub IsRanked : List (ℕ × F) → Type 0
  IsRanked [] = Unit
  IsRanked (x ∷ xs) = All (Precedes x) xs × IsRanked xs

  abbrev pub Placed : List F → ℕ × F → Type 0
  Placed powers (i, p) = get_elem? powers i ≡ some p

  pub All-weaken :
      (P Q : ℕ × F → Type 0) (xs : List (ℕ × F)) → ((x : ℕ × F) → P x → Q x) → All P xs → All Q xs
  All-weaken P Q [] f h = tt
  All-weaken P Q (x ∷ xs) f h = (f x h.0, All-weaken P Q xs f h.1)

  -- `zs` is ranked, and holds the entries of `xs` and of `ys`.
  pub record Ranks (xs ys zs : List (ℕ × F)) : Type 1 where
    pub ranked : IsRanked zs
    pub keeps : (P : ℕ × F → Type 0) → All P xs → All P ys → All P zs
    pub all_of : (P : ℕ × F → Type 0) → All P zs → All P xs × All P ys
    pub counts : length zs ≡ length xs + length ys

  -- A sort that fails on a comparison, or ranks the entries.
  abbrev pub Sorts : List F → List (ℕ × F) → List (ℕ × F) → Outcome (List (ℕ × F)) → Type 1
  Sorts powers xs ys r =
      ((r ≡ panic unwrap) × HasIncomparable powers)
      ⊎ ((zs : List (ℕ × F)) × (r ≡ ok zs) × Ranks xs ys zs)

  module _ (order : IsOrder) (powers : List F) where
    open order use {lt_dual, gt_dual, gt_trans, gt_eq}

    Precedes-trans :
        (x y z : ℕ × F) → partial_cmp x.1 y.1 ≡ some Ordering.gt → Precedes y z → Precedes x z
    Precedes-trans x y z g (inl h) = inl (gt_trans x.1 y.1 z.1 g h)
    Precedes-trans x y z g (inr (h, _)) = inl (gt_eq x.1 y.1 z.1 g h)

    after :
        (x y : ℕ × F) (ys : List (ℕ × F)) (r : Outcome (List (ℕ × F)))
        → Precedes y x
        → All (Precedes y) ys
        → Sorts powers (x ∷ []) ys r
        → Sorts powers (x ∷ []) (y ∷ ys) (r >>= λ zs. ok (y ∷ zs))
    after x y ys r p h (inl (e, bad)) = inl (rw e, bad)
    after x y ys r p h (inr (zs, e, s)) = inr (
      y ∷ zs,
      rw e,
      record {
        ranked = (s.keeps (Precedes y) (p, tt) h, s.ranked);
        keeps = λ P a b. (b.0, s.keeps P a b.1);
        all_of = λ P a. let (one, rest) = s.all_of P a.1 in (one, (a.0, rest));
        counts = omega (arith, s.counts);
      },
    )

    place_lem :
        (c : Option Ordering) (x y : ℕ × F) (ys : List (ℕ × F)) (r : Outcome (List (ℕ × F)))
        → partial_cmp y.1 x.1 ≡ c
        → y.0 < x.0
        → Placed powers x
        → Placed powers y
        → IsRanked (y ∷ ys)
        → Sorts powers (x ∷ []) ys r
        → Sorts powers (x ∷ []) (y ∷ ys) (place fl c x y ys r)
    unfolding place
    place_lem none x y ys r e l px py h s = inl (
      refl,
      record {
        first = y.0;
        second = x.0;
        p = y.1;
        q = x.1;
        at_first = py;
        at_second = px;
        earlier = l;
        incomparable = e;
      },
    )
    place_lem (some Ordering.lt) x y ys r e l px py h s =
        let g = lt_dual y.1 x.1 e in
        inr (
          x ∷ y ∷ ys,
          refl,
          record {
            ranked = (
              (inl g, All-weaken (Precedes y) (Precedes x) ys (λ z. Precedes-trans x y z g) h.0),
              h,
            );
            keeps = λ P a b. (a.0, b);
            all_of = λ P a. ((a.0, tt), a.1);
            counts = omega arith;
          },
        )
    place_lem (some Ordering.eq) x y ys r e l px py h s = after x y ys r (inr (e, l)) h.0 s
    place_lem (some Ordering.gt) x y ys r e l px py h s = after x y ys r (inl e) h.0 s

    insert_by_power_lem :
        (x : ℕ × F) (ys : List (ℕ × F))
        → Placed powers x
        → All (Placed powers) ys
        → All (λ y. y.0 < x.0) ys
        → IsRanked ys
        → Sorts powers (x ∷ []) ys (insert_by_power fl x ys)
    unfolding insert_by_power
    insert_by_power_lem x [] px h l k = inr (
      x ∷ [],
      refl,
      record { ranked = (tt, tt); keeps = λ P a b. a; all_of = λ P a. (a, tt); counts = refl },
    )
    insert_by_power_lem x (y ∷ ys) px h l k =
        place_lem _ x y ys _ refl l.0 px h.0 k (insert_by_power_lem x ys px h.1 l.1 k.1)

    pub sort_by_power_lem :
        (i : ℕ) (ps : List F) (sorted : List (ℕ × F))
        → All (Placed powers) (number_from fl i ps)
        → All (Placed powers) sorted
        → All (λ y. y.0 < i) sorted
        → IsRanked sorted
        → Sorts powers (number_from fl i ps) sorted (sort_by_power fl sorted (number_from fl i ps))
    unfolding sort_by_power number_from
    sort_by_power_lem i [] sorted h k l s = inr (
      sorted,
      refl,
      record { ranked = s; keeps = λ P a b. b; all_of = λ P a. (tt, a); counts = omega arith },
    )
    sort_by_power_lem i (p ∷ ps) sorted h k l s =
        elim (insert_by_power_lem (i, p) sorted h.0 k l s) [
          | inl (e, bad) ↦ inl (rw e, bad)
          | inr (zs, e, t) ↦
              let low : All (λ y. y.0 < suc i) zs =
                t.keeps (λ y. y.0 < suc i) (omega arith, tt)
                  (All-weaken (λ y. y.0 < i) (λ y. y.0 < suc i) sorted (λ y b. omega arith) l) in
              elim (sort_by_power_lem (suc i) ps zs h.1 (t.keeps (Placed powers) (h.0, tt) k) low
                t.ranked) [
                  | inl (f, bad) ↦ inl (rw (e, f), bad)
                  | inr (us, f, u) ↦ inr (
                    us,
                    rw (e, f),
                    record {
                      ranked = u.ranked;
                      keeps = λ P a b. u.keeps P a.1 (t.keeps P (a.0, tt) b);
                      all_of = λ P a.
                          let (rest, some_of) = u.all_of P a in
                          let (one, old) = t.all_of P some_of in ((one.0, rest), old);
                      counts = omega (arith, t.counts, u.counts);
                    },
                  )
                ]
        ]
