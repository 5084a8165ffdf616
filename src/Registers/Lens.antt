-- ===== src/Registers/Lens.antt =====
-- The laws of the getters and setters on a register's byte, from the law of the crate: what is set
-- is got back, and the other fields keep their values.
use tedium.Common.{
  ℕ, zero, suc, ◌+◌, ◌-◌, ◌*◌, ◌/◌, ◌%◌, ◌^◌, ◌≤◌, ◌<◌, ◌≡◌, ◌≢◌, refl, sym, ap, subst, ◌∙◌, ◌⊎◌,
  inl, inr, some, arith,
}
use Prim.Native.String.{String}
use native.Mathlib.Nat.{
  pow-suc, one-le-pow, mul-add-div_right, mul-add-mod_self_right, div-div-eq-div-mul, div-eq_of_lt,
  mod-eq_of_lt, mod-lt, add-mul, mul_assoc, mul_comm, div-add-mod,
}
use tedium.Registers.Layout.{Layout, Position, position, position_disjoint}
use tedium.Registers.Bitfield.{Bitfield, get_field, with_field}

pow-add : (a b : ℕ) → 2 ^ (a + b) ≡ 2 ^ a * 2 ^ b
pow-add a zero = let e : a + 0 ≡ a = omega arith in rw e (omega arith)
pow-add a (suc b) =
    let e : a + suc b ≡ suc (a + b) = omega arith in
    rw (e, pow-suc 2 (a + b), pow-suc 2 b, pow-add a b) (mul_assoc (2 ^ a) (2 ^ b) 2)

pow_pos : (a : ℕ) → 0 < 2 ^ a
pow_pos a = omega (arith, one-le-pow a 2)

-- A number of two parts, and its digits above, at and below a field.
above : (x m r : ℕ) → r < m → (x * m + r) / m ≡ x
above x m r h = mul-add-div_right (omega arith) x r ∙ omega (arith, div-eq_of_lt h)

middle : (h n m v r : ℕ) → r < m → v < n → ((h * n + v) * m + r) / m % n ≡ v
middle h n m v r k l = rw (above (h * n + v) m r k) (mul-add-mod_self_right h n v ∙ mod-eq_of_lt l)

high : (h n m v r : ℕ) → r < m → v < n → ((h * n + v) * m + r) / m / n ≡ h
high h n m v r k l = rw (above (h * n + v) m r k) (above h n v l)

low_part : (y w b a r : ℕ) → 0 < a → (y * (w * b * a) + r) / a % b ≡ r / a % b
low_part y w b a r h =
    rw (← mul_assoc y (w * b) a, mul-add-div_right h (y * (w * b)) r, ← mul_assoc y w b)
      (mul-add-mod_self_right (y * w) b (r / a))

-- What a setter makes of a byte.
set_at : (low size v byte : ℕ) → ℕ
set_at low size v byte = (byte / 2 ^ low / 2 ^ size * 2 ^ size + v) * 2 ^ low + byte % 2 ^ low

module _ (low size v byte : ℕ) (l : v < 2 ^ size) where
  set_at-here : set_at low size v byte / 2 ^ low % 2 ^ size ≡ v
  unfolding set_at
  set_at-here =
      middle (byte / 2 ^ low / 2 ^ size) (2 ^ size) (2 ^ low) v (byte % 2 ^ low)
        (mod-lt byte (pow_pos low)) l

  set_at-above :
      (k : ℕ) → set_at low size v byte / 2 ^ (low + (size + k)) ≡ byte / 2 ^ (low + (size + k))
  unfolding set_at
  set_at-above k =
      let e : 2 ^ (low + (size + k)) ≡ 2 ^ low * (2 ^ size * 2 ^ k) =
        rw (pow-add low (size + k), pow-add size k) refl in
      rw
        (
          e,
          ← div-div-eq-div-mul (set_at low size v byte) (2 ^ low) (2 ^ size * 2 ^ k),
          ← div-div-eq-div-mul byte (2 ^ low) (2 ^ size * 2 ^ k),
          ← div-div-eq-div-mul (set_at low size v byte / 2 ^ low) (2 ^ size) (2 ^ k),
          ← div-div-eq-div-mul (byte / 2 ^ low) (2 ^ size) (2 ^ k),
          high (byte / 2 ^ low / 2 ^ size) (2 ^ size) (2 ^ low) v (byte % 2 ^ low)
              (mod-lt byte (pow_pos low)) l,
        )
        refl

  set_at-below :
      (ql qs k : ℕ)
      → ql + (qs + k) ≡ low
      → set_at low size v byte / 2 ^ ql % 2 ^ qs ≡ byte / 2 ^ ql % 2 ^ qs
  unfolding set_at
  set_at-below ql qs k e =
      let m : 2 ^ low ≡ 2 ^ k * 2 ^ qs * 2 ^ ql =
        rw (← e, pow-add ql (qs + k), pow-add qs k)
          (mul_comm (2 ^ ql) (2 ^ qs * 2 ^ k) ∙ ap (λ t. t * 2 ^ ql) (mul_comm (2 ^ qs) (2 ^ k))) in
      let low_digits =
        λ (y : ℕ). low_part y (2 ^ k) (2 ^ qs) (2 ^ ql) (byte % 2 ^ low) (pow_pos ql) in
      let whole : byte / 2 ^ low * 2 ^ low + byte % 2 ^ low ≡ byte =
        omega (arith, div-add-mod byte (2 ^ low), mul_comm (2 ^ low) (byte / 2 ^ low)) in
      ap (λ t. ((byte / 2 ^ low / 2 ^ size * 2 ^ size + v) * t + byte % 2 ^ low) / 2 ^ ql % 2 ^ qs)
        m
      ∙ low_digits (byte / 2 ^ low / 2 ^ size * 2 ^ size + v)
      ∙ sym (low_digits (byte / 2 ^ low))
      ∙ ap (λ t. (byte / 2 ^ low * t + byte % 2 ^ low) / 2 ^ ql % 2 ^ qs) (sym m)
      ∙ ap (λ t. t / 2 ^ ql % 2 ^ qs) whole

  -- A field that shares no bit with the one that is set.
  set_at-apart :
      (ql qs : ℕ)
      → (low + size ≤ ql) ⊎ (ql + qs ≤ low)
      → set_at low size v byte / 2 ^ ql % 2 ^ qs ≡ byte / 2 ^ ql % 2 ^ qs
  set_at-apart ql qs (inl h) =
      let e : low + (size + (ql - low - size)) ≡ ql = omega arith in
      subst (λ t. set_at low size v byte / 2 ^ t % 2 ^ qs ≡ byte / 2 ^ t % 2 ^ qs) e
        (ap (λ t. t % 2 ^ qs) (set_at-above (ql - low - size)))
  set_at-apart ql qs (inr h) = set_at-below ql qs (low - ql - qs) (omega arith)

module _ (bf : Bitfield) (layout : Layout) (name : String) (p : Position) (v byte : ℕ) where
  module _ (e : position name layout ≡ some p) (l : v < 2 ^ p.size) where
    with_field-set_at : with_field bf layout name v byte ≡ set_at p.low p.size v byte
    unfolding with_field set_at
    with_field-set_at = rw e (
        bf.set_lem p.low p.size v byte l
        ∙ ap (λ t. t + byte % 2 ^ p.low)
            (sym (add-mul (byte / 2 ^ p.low / 2 ^ p.size * 2 ^ p.size) v (2 ^ p.low))))

    -- A value that fits its field is got back as it was set, and every other field of the register
    -- keeps its value.
    pub get_field-with_field :
        (get_field bf layout name (with_field bf layout name v byte) ≡ v)
        × ((other : String) (q : Position)
            → other ≢ name
            → position other layout ≡ some q
            → get_field bf layout other (with_field bf layout name v byte)
              ≡ get_field bf layout other byte)
    unfolding get_field
    get_field-with_field = (
      rw (e, with_field-set_at, bf.get_lem p.low p.size (set_at p.low p.size v byte))
          (set_at-here p.low p.size v byte l),
      λ other q n f.
          rw
            (
              f,
              with_field-set_at,
              bf.get_lem q.low q.size (set_at p.low p.size v byte),
              bf.get_lem q.low q.size byte,
            )
            (set_at-apart p.low p.size v byte l q.low q.size
              (position_disjoint name other layout p q (λ g. n (sym g)) e f)),
    )
