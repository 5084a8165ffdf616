-- ===== src/Float/Integers.antt =====
-- Integers in the place of floating-point numbers, for concrete runs.
use tedium.Common.{◌+◌, some}
use tedium.Common.Int.{ℤ, pos, pos_part, neg_part, sub_ℕ}
use Prim.Native.Nat.{compare}
use tedium.Float.{Float}

abbrev minus : ℤ → ℤ → ℤ
minus a b = sub_ℕ (pos_part a + neg_part b) (neg_part a + pos_part b)

-- Addition, subtraction and comparison of integers; the rest is the first argument.
abbrev pub integers : Float
integers = record {
  F = ℤ;
  lit = λ n d. n;
  tau = pos 6;
  add = λ a b. minus a (minus (pos 0) b);
  sub = minus;
  mul = λ a b. a;
  div = λ a b. a;
  neg = λ a. minus (pos 0) a;
  rem = λ a b. a;
  sin = λ a. a;
  cos = λ a. a;
  log10 = λ a. a;
  round = λ a. a;
  clamp = λ x lo hi. x;
  to_i16 = λ a. a;
  of_int = λ a. a;
  partial_cmp = λ a b. some (compare (pos_part a + neg_part b) (neg_part a + pos_part b));
  Complex = ℤ;
  c_new = λ a b. a;
  c_exp = λ a. a;
  c_neg = λ a. a;
  mul_complex = λ a c. a;
  add_complex = λ a c. a;
  norm = λ a. a;
}
