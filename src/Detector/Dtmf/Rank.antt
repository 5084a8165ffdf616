-- ===== src/Detector/Dtmf/Rank.antt =====
-- No index of `Detector::detect` (detector/dtmf.rs) leaves its list, whatever the comparison is.
use tedium.Common.{
  ℕ, zero, suc, ◌+◌, ◌<◌, ◌≡◌, refl, ap, sym, Option, none, some, List, [], ◌∷◌, get_elem?, subst,
  get_or, get_elem?-eq-get_or, lt-of_get_elem?, All, length, ◌⊎◌, inl, inr, arith, Bool-cases,
}
use tedium.Common.Outcome.{Outcome, ok, panic, unwrap}
use Prim.Native.Nat.{Ordering}
use native.Mathlib.Nat.{add-zero, zero-add}
use tedium.Float.{Float}
use tedium.Detector.Dtmf.{
  key_at, key_map, number_from, place, insert_by_power, sort_by_power, strongest, stands_out,
  twist_ok, detect_high, detect,
}

key_row :
    (row : ℕ) → row < 4 → (keys : List ℕ) × (get_elem? key_map row ≡ some keys) × (length keys ≡ 4)
unfolding key_map
key_row zero h = (_, refl, refl)
key_row (suc zero) h = (_, refl, refl)
key_row (suc (suc zero)) h = (_, refl, refl)
key_row (suc (suc (suc zero))) h = (_, refl, refl)
key_row (suc (suc (suc (suc n)))) h = absurd (omega arith)

key_at-ok : (row column : ℕ) → row < 4 → column < 4 → (k : ℕ) × (key_at row column ≡ ok k)
unfolding key_at
key_at-ok row column h k =
    let (keys, e, n) = key_row row h in
    (get_or keys column 0, rw (e, get_elem?-eq-get_or keys column 0 (omega (arith, n, k))))

module _ (fl : Float) where
  open fl use {F, partial_cmp}

  -- A sort that panics on a comparison, or returns `n` entries that all satisfy `P`.
  abbrev Sorts : (ℕ × F → Type 0) → ℕ → Outcome (List (ℕ × F)) → Type 0
  Sorts P n r =
      (r ≡ panic unwrap) ⊎ ((zs : List (ℕ × F)) × (r ≡ ok zs) × All P zs × (length zs ≡ n))

  module _ (P : ℕ × F → Type 0) where
    place_lem :
        (c : Option Ordering) (x y : ℕ × F) (ys : List (ℕ × F)) (r : Outcome (List (ℕ × F)))
        → P x
        → P y
        → All P ys
        → Sorts P (suc (length ys)) r
        → Sorts P (suc (suc (length ys))) (place fl c x y ys r)
    unfolding place
    place_lem none x y ys r px py h s = inl refl
    place_lem (some Ordering.lt) x y ys r px py h s = inr (x ∷ y ∷ ys, refl, (px, (py, h)), refl)
    place_lem (some Ordering.eq) x y ys r px py h (inl e) = inl (rw e)
    place_lem (some Ordering.eq) x y ys r px py h (inr (zs, e, a, n)) =
        inr (y ∷ zs, rw e, (py, a), ap suc n)
    place_lem (some Ordering.gt) x y ys r px py h (inl e) = inl (rw e)
    place_lem (some Ordering.gt) x y ys r px py h (inr (zs, e, a, n)) =
        inr (y ∷ zs, rw e, (py, a), ap suc n)

    insert_by_power_lem :
        (x : ℕ × F) (ys : List (ℕ × F))
        → P x
        → All P ys
        → Sorts P (suc (length ys)) (insert_by_power fl x ys)
    unfolding insert_by_power
    insert_by_power_lem x [] px h = inr (x ∷ [], refl, (px, tt), refl)
    insert_by_power_lem x (y ∷ ys) px h =
        place_lem _ x y ys _ px h.0 h.1 (insert_by_power_lem x ys px h.1)

    sort_by_power_lem :
        (xs sorted : List (ℕ × F))
        → All P xs
        → All P sorted
        → Sorts P (length xs + length sorted) (sort_by_power fl sorted xs)
    unfolding sort_by_power
    sort_by_power_lem [] sorted h k = inr (sorted, refl, k, omega arith)
    sort_by_power_lem (x ∷ xs) sorted h k = elim (insert_by_power_lem x sorted h.0 k) [
      | inl e ↦ inl (rw e)
      | inr (zs, e, a, n) ↦ rw e (
          subst (λ k. Sorts P k (sort_by_power fl zs xs)) (omega arith)
            (sort_by_power_lem xs zs h.1 a))
    ]

  -- An entry that names its place in the list of powers.
  abbrev Placed : List F → ℕ × F → Type 0
  Placed powers (i, p) = get_elem? powers i ≡ some p

  number_from-All :
      (i : ℕ) (ps powers : List F)
      → ((k : ℕ) (p : F) → get_elem? ps k ≡ some p → get_elem? powers (k + i) ≡ some p)
      → All (Placed powers) (number_from fl i ps) × (length (number_from fl i ps) ≡ length ps)
  unfolding number_from
  number_from-All i [] powers h = (tt, refl)
  number_from-All i (p ∷ ps) powers h =
      let later = λ (k : ℕ) (q : F) (e : get_elem? ps k ≡ some q).
        subst (λ j. get_elem? powers j ≡ some q) (omega arith) (h (suc k) q e) in
      let (rest, len) = number_from-All (suc i) ps powers later in
      let here : get_elem? powers i ≡ some p =
        subst (λ j. get_elem? powers j ≡ some p) (zero-add i) (h 0 p refl) in
      ((here, rest), ap suc len)

  -- A comparison that panics, or the index and the power of one of the four tones.
  abbrev Chooses : List F → Outcome ((ℕ × F) × F) → Type 0
  Chooses powers r =
      (r ≡ panic unwrap)
      ⊎ ((x : ℕ × F) × (next : F) × (r ≡ ok (x, next)) × (get_elem? powers x.0 ≡ some x.1))

  choose :
      (powers : List F) (zs : List (ℕ × F))
      → All (Placed powers) zs
      → length zs ≡ 4
      → (x : ℕ × F) × (y : ℕ × F) × (get_elem? zs 0 ≡ some x)
        × (get_elem? zs 1 ≡ some y)
        × (get_elem? powers x.0 ≡ some x.1)
  choose powers [] a n = absurd (omega arith)
  choose powers (x ∷ []) a n = absurd (omega arith)
  choose powers (x ∷ y ∷ zs) a n = (x, y, refl, refl, a.0)

  strongest-Chooses : (powers : List F) → length powers ≡ 4 → Chooses powers (strongest fl powers)
  unfolding strongest
  strongest-Chooses powers four =
      let (placed, len) =
        number_from-All 0 powers powers
          (λ k p e. subst (λ j. get_elem? powers j ≡ some p) (sym (add-zero k)) e) in
      elim (sort_by_power_lem (Placed powers) (number_from fl 0 powers) [] placed tt) [
        | inl e ↦ inl (rw e)
        | inr (zs, e, a, n) ↦
            let (x, y, ex, ey, at_x) = choose powers zs a (omega (arith, n, len, four)) in
            inr (x, y.1, rw (e, ex, ey), at_x)
      ]

  -- A panic of a comparison, or a result.
  abbrev pub Ends : Outcome (Option ℕ) → Type 0
  Ends r = (r ≡ panic unwrap) ⊎ ((key : Option ℕ) × (r ≡ ok key))

  detect_high-Ends :
      (lows highs : List F) (row : ℕ) (low : F)
      → length lows ≡ 4
      → length highs ≡ 4
      → get_elem? lows row ≡ some low
      → Ends (detect_high fl (row, low) highs)
  unfolding detect_high
  detect_high-Ends lows highs row low n m at_row = elim (strongest-Chooses highs m) [
    | inl f ↦ inl (rw f)
    | inr ((column, high), high_next, f, at_column) ↦
        elim (Bool-cases (stands_out fl high high_next)) [
          | inr faint ↦ inr (none, rw (f, faint))
          | inl loud ↦ elim (Bool-cases (twist_ok fl low high)) [
            | inr twisted ↦ inr (none, rw (f, loud, twisted))
            | inl level ↦
                let (key, is_key) =
                  key_at-ok row column
                    (subst (λ k. row < k) n (lt-of_get_elem? lows row low at_row))
                    (subst (λ k. column < k) m (lt-of_get_elem? highs column high at_column)) in
                inr (some key, rw (f, loud, level, is_key))
          ]
        ]
  ]

  pub detect-Ends :
      (lows highs : List F) → length lows ≡ 4 → length highs ≡ 4 → Ends (detect fl lows highs)
  unfolding detect
  detect-Ends lows highs n m = elim (strongest-Chooses lows n) [
    | inl e ↦ inl (rw e)
    | inr ((row, low), low_next, e, at_row) ↦ elim (Bool-cases (stands_out fl low low_next)) [
      | inr faint ↦ inr (none, rw (e, faint))
      | inl clear ↦ rw (e, clear) (detect_high-Ends lows highs row low n m at_row)
    ]
  ]
