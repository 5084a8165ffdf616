-- ===== src/Detector/Dtmf/Verdict.antt =====
-- What `Detector::detect` of detector/dtmf.rs finds in the powers of the tones.
use tedium.Common.{
  ℕ, zero, suc, ◌+◌, ◌*◌, ◌<◌, ◌≡◌, refl, subst, Bool, true, false, Bool-cases, Option, none, some,
  List, [], ◌∷◌, get_elem?, lt-of_get_elem?, length, ◌⊎◌, inl, inr, arith,
}
use tedium.Common.Int.{pos, negsuc}
use tedium.Common.Outcome.{Outcome, ok, panic, unwrap}
use tedium.Float.{Float, lt_f32, contains}
use tedium.Detector.Dtmf.{key_at, key_map, stands_out, twist_ok, detect_high, detect}
use tedium.Detector.Dtmf.Sort.{IsOrder, HasIncomparable}
use tedium.Detector.Dtmf.Strongest.{IsStrongest, strongest-IsStrongest}

-- The keys of the pad, row by row.
abbrev keypad : List ℕ
keypad =
    b'1' ∷ b'2' ∷ b'3' ∷ b'A' ∷ b'4' ∷ b'5' ∷ b'6' ∷ b'B' ∷ b'7' ∷ b'8' ∷ b'9' ∷ b'C' ∷ b'*' ∷ b'0'
    ∷ b'#' ∷ b'D' ∷ []

key_at-keypad :
    (row column : ℕ)
    → row < 4
    → column < 4
    → (key : ℕ) × (key_at row column ≡ ok key) × (get_elem? keypad (row * 4 + column) ≡ some key)
unfolding key_at key_map
key_at-keypad zero zero h k = (_, refl, refl)
key_at-keypad zero (suc zero) h k = (_, refl, refl)
key_at-keypad zero (suc (suc zero)) h k = (_, refl, refl)
key_at-keypad zero (suc (suc (suc zero))) h k = (_, refl, refl)
key_at-keypad (suc zero) zero h k = (_, refl, refl)
key_at-keypad (suc zero) (suc zero) h k = (_, refl, refl)
key_at-keypad (suc zero) (suc (suc zero)) h k = (_, refl, refl)
key_at-keypad (suc zero) (suc (suc (suc zero))) h k = (_, refl, refl)
key_at-keypad (suc (suc zero)) zero h k = (_, refl, refl)
key_at-keypad (suc (suc zero)) (suc zero) h k = (_, refl, refl)
key_at-keypad (suc (suc zero)) (suc (suc zero)) h k = (_, refl, refl)
key_at-keypad (suc (suc zero)) (suc (suc (suc zero))) h k = (_, refl, refl)
key_at-keypad (suc (suc (suc zero))) zero h k = (_, refl, refl)
key_at-keypad (suc (suc (suc zero))) (suc zero) h k = (_, refl, refl)
key_at-keypad (suc (suc (suc zero))) (suc (suc zero)) h k = (_, refl, refl)
key_at-keypad (suc (suc (suc zero))) (suc (suc (suc zero))) h k = (_, refl, refl)
key_at-keypad (suc (suc (suc (suc row)))) column h k = absurd (omega arith)
key_at-keypad row (suc (suc (suc (suc column)))) h k = absurd (omega arith)

module _ (fl : Float) where
  open fl use {F, lit, sub}

  -- Between -25 dB and 0 dB, and not less than 10 dB above `next`.
  abbrev Stands : F → F → Type 0
  Stands p next =
      (contains fl (lit (negsuc 24) 1) (lit (pos 0) 1) p ≡ true)
      × (lt_f32 fl (sub p next) (lit (pos 10) 1) ≡ false)

  abbrev Falls : F → F → Type 0
  Falls p next =
      (contains fl (lit (negsuc 24) 1) (lit (pos 0) 1) p ≡ false)
      ⊎ (lt_f32 fl (sub p next) (lit (pos 10) 1) ≡ true)

  -- The high tone is between 8 dB below the low tone and 4 dB above it.
  abbrev twist_in_range : F → F → Bool
  twist_in_range low high = contains fl (lit (negsuc 7) 1) (lit (pos 4) 1) (sub high low)

  -- The strongest tone of the group is `x`, and it stands out.
  abbrev pub IsClear : List F → ℕ × F → Type 0
  IsClear powers x = (next : F) × IsStrongest fl powers x next × Stands x.1 next

  -- The strongest tone of the group does not stand out.
  abbrev pub IsFaint : List F → Type 0
  IsFaint powers = (x : ℕ × F) × (next : F) × IsStrongest fl powers x next × Falls x.1 next

  abbrev Fails : List F → List F → Type 0
  Fails lows highs =
      HasIncomparable fl lows ⊎ ((low : ℕ × F) × IsClear lows low × HasIncomparable fl highs)

  abbrev Rejects : List F → List F → Type 0
  Rejects lows highs =
      IsFaint lows
      ⊎ ((low : ℕ × F) × IsClear lows low
          × (IsFaint highs
              ⊎ ((high : ℕ × F) × IsClear highs high × (twist_in_range low.1 high.1 ≡ false))))

  abbrev Accepts : List F → List F → ℕ → Type 0
  Accepts lows highs key =
      (low high : ℕ × F) × IsClear lows low
      × IsClear highs high
      × (twist_in_range low.1 high.1 ≡ true)
      × (get_elem? keypad (low.0 * 4 + high.0) ≡ some key)

  -- What the powers say of each of the three results.
  abbrev pub Judges : List F → List F → Outcome (Option ℕ) → Type 0
  Judges lows highs r =
      ((r ≡ panic unwrap) × Fails lows highs)
      ⊎ (((r ≡ ok none) × Rejects lows highs)
          ⊎ ((key : ℕ) × (r ≡ ok (some key)) × Accepts lows highs key))

  stands_out-cases :
      (p next : F)
      → ((stands_out fl p next ≡ true) × Stands p next)
        ⊎ ((stands_out fl p next ≡ false) × Falls p next)
  unfolding stands_out
  stands_out-cases p next = elim (Bool-cases (contains fl (lit (negsuc 24) 1) (lit (pos 0) 1) p)) [
    | inr out ↦ inr (rw out, inl out)
    | inl within ↦ elim (Bool-cases (lt_f32 fl (sub p next) (lit (pos 10) 1))) [
      | inl near ↦ inr (rw (within, near), inr near)
      | inr apart ↦ inl (rw (within, apart), (within, apart))
    ]
  ]

  module _ (order : IsOrder fl) (lows highs : List F) (n : length lows ≡ 4)
      (m : length highs ≡ 4) where
    detect_high-Judges :
        (low : ℕ × F) → IsClear lows low → Judges lows highs (detect_high fl low highs)
    unfolding detect_high twist_ok
    detect_high-Judges low clear = elim (strongest-IsStrongest fl order highs m) [
      | inl (e, bad) ↦ inl (rw e, inr (low, clear, bad))
      | inr (high, next, e, strong) ↦ elim (stands_out-cases high.1 next) [
        | inr (f, falls) ↦ inr (inl (rw (e, f), inr (low, clear, inl (high, next, strong, falls))))
        | inl (f, stands) ↦ elim (Bool-cases (twist_in_range low.1 high.1)) [
          | inr t ↦
              inr (inl (rw (e, f, t), inr (low, clear, inr (high, (next, strong, stands), t))))
          | inl t ↦
              let (key, is_key, on_pad) =
                key_at-keypad low.0 high.0
                  (subst (λ k. low.0 < k) n (lt-of_get_elem? lows low.0 low.1 clear.1.at_first))
                  (subst (λ k. high.0 < k) m
                    (lt-of_get_elem? highs high.0 high.1 strong.at_first)) in
              inr (
                inr (
                  key,
                  rw (e, f, t, is_key),
                  (low, high, clear, (next, strong, stands), t, on_pad),
                ))
        ]
      ]
    ]

  -- Of four low and four high powers, with a comparison that is dual and transitive: the detector
  -- panics where two low powers cannot be compared, or where the low tone stands out and two high
  -- powers cannot; it finds no key where the strongest tone of a group, the low one first, does not
  -- stand out, or the twist is out of range; and otherwise it finds the key of the pad in the row
  -- of the strongest low and the column of the strongest high tone. A tone stands out if its power
  -- is between -25 dB and 0 dB and not less than 10 dB above that of the strongest of the others.
  pub detect-Judges :
      IsOrder fl
      → (lows highs : List F) → length lows ≡ 4
      → length highs ≡ 4
      → Judges lows highs (detect fl lows highs)
  unfolding detect
  detect-Judges order lows highs n m = elim (strongest-IsStrongest fl order lows n) [
    | inl (e, bad) ↦ inl (rw e, inl bad)
    | inr (low, next, e, strong) ↦ elim (stands_out-cases low.1 next) [
      | inr (f, falls) ↦ inr (inl (rw (e, f), inl (low, next, strong, falls)))
      | inl (f, stands) ↦
          rw (e, f) (detect_high-Judges order lows highs n m low (next, strong, stands))
    ]
  ]
