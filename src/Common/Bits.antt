-- ===== src/Common/Bits.antt =====
-- The bit operations at variables: one equation for the lowest digit, then the facts about
-- shifts and masks that the register and word arithmetic of the program needs.
use Prim.Native.Nat.{ℕ, zero, suc, ◌+◌, ◌*◌, ◌/◌, ◌%◌, ◌^◌, ◌≤◌, ◌<◌, min, max}
use Prim.Native.Nat.{bit_and, bit_or, digits, bitwise, bit_and-bitwise, bit_or-bitwise}
use mathlib.Core.Path.{◌≡◌, refl, sym, ap}
use native.Mathlib.Nat.{le_refl, pow-suc}
use native.Mathlib.Omega.{arith}

-- Casts to the fixed widths.
abbrev pub u8 : ℕ → ℕ
u8 n = n % 256

abbrev pub u16 : ℕ → ℕ
u16 n = n % 65536

abbrev pub u32 : ℕ → ℕ
u32 n = n % 4294967296

-- Fuel beyond the first number changes nothing, so the lowest digit can be split off.
module _ (rest : ℕ → ℕ) (digit : ℕ → ℕ → ℕ) where
  spare_fuel :
      (fuel more x y : ℕ)
      → fuel ≤ more
      → x ≤ fuel
      → digits rest digit more x y ≡ digits rest digit fuel x y
  spare_fuel (suc fuel) (suc more) (suc x) y l h =
      rw (spare_fuel fuel more (suc x / 2) (y / 2) (omega arith) (omega arith)) refl
  spare_fuel (suc fuel) (suc more) zero y l h = refl
  spare_fuel (suc fuel) zero x y l h = absurd (omega arith)
  spare_fuel zero more (suc x) y l h = absurd (omega arith)
  spare_fuel zero zero zero y l h = refl
  spare_fuel zero (suc more) zero y l h = refl

  lowest :
      (x y : ℕ)
      → digit (suc x % 2) (y % 2) + bitwise rest digit (suc x / 2) (y / 2) * 2
        ≡ bitwise rest digit (suc x) y
  lowest x y =
      let half = suc x / 2 in
      omega (arith, spare_fuel half x half (y / 2) (omega arith) (omega arith))

pub bit_or-halves : (x y : ℕ) → bit_or x y ≡ max (x % 2) (y % 2) + bit_or (x / 2) (y / 2) * 2
bit_or-halves (suc x) y = simp bit_or-bitwise (sym (lowest (λ k. k) max x y))
bit_or-halves zero y = simp bit_or-bitwise (omega arith)

pub bit_and-halves : (x y : ℕ) → bit_and x y ≡ min (x % 2) (y % 2) + bit_and (x / 2) (y / 2) * 2
bit_and-halves (suc x) y = simp bit_and-bitwise (sym (lowest (λ k. 0) min x y))
bit_and-halves zero y = simp bit_and-bitwise (omega arith)

pub bit_and-zero_fuel : (fuel x : ℕ) → x ≤ fuel → bit_and x 0 ≡ 0
bit_and-zero_fuel (suc fuel) (suc x) l =
    omega (arith, bit_and-zero_fuel fuel (suc x / 2) (omega arith), bit_and-halves (suc x) 0)
bit_and-zero_fuel zero (suc x) l = absurd (omega arith)
bit_and-zero_fuel fuel zero l = refl

pub bit_and-zero : (x : ℕ) → bit_and x 0 ≡ 0
bit_and-zero x = bit_and-zero_fuel x x (le_refl x)

pub bit_or-zero_fuel : (fuel x : ℕ) → x ≤ fuel → bit_or x 0 ≡ x
bit_or-zero_fuel (suc fuel) (suc x) l =
    omega (arith, bit_or-zero_fuel fuel (suc x / 2) (omega arith), bit_or-halves (suc x) 0)
bit_or-zero_fuel zero (suc x) l = absurd (omega arith)
bit_or-zero_fuel fuel zero l = refl

pub bit_or-zero : (x : ℕ) → bit_or x 0 ≡ x
bit_or-zero x = bit_or-zero_fuel x x (le_refl x)

halve : (k a : ℕ) → a * 2 ^ suc k / 2 ≡ a * 2 ^ k
halve k a = omega (arith, ap (λ t. a * t) (pow-suc 2 k))

-- A value shifted up by `k` bits and one of at most `k` bits share no bit: `|` is `+`.
pub bit_or-shifted : (k a b : ℕ) → b < 2 ^ k → bit_or (a * 2 ^ k) b ≡ a * 2 ^ k + b
bit_or-shifted zero a b h =
    let e : b ≡ 0 = omega arith in rw e (omega (arith, bit_or-zero (a * 2 ^ 0)))
bit_or-shifted (suc k) a b h = omega (
  arith,
  pow-suc 2 k,
  ap (λ t. a * t) (pow-suc 2 k),
  bit_or-halves (a * 2 ^ suc k) b,
  ap (λ t. bit_or t (b / 2)) (halve k a),
  bit_or-shifted k a (b / 2) (omega (arith, pow-suc 2 k)),
)
