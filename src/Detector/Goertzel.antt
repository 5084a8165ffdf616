-- ===== src/Detector/Goertzel.antt =====
-- One Goertzel filter (detector/goertzel.rs).
use tedium.Common.{ℕ, ltb}
use tedium.Common.Outcome.{Outcome, ok, ◌>>◌, assert}
use tedium.Common.Int.{pos}
use tedium.Float.{Float}

pub record GoertzelDetector (fl : Float) : Type 0 where
  pub w_n : fl.F
  pub w_n_z1 : fl.F
  pub w_n_z2 : fl.F
  pub k_fb : fl.F
  pub k_ff : fl.Complex
  pub n : ℕ

module _ (fl : Float) where
  open fl use {F, lit, tau, add, sub, mul, div, neg, cos, log10, of_int}
  open fl use {c_new, c_exp, c_neg, mul_complex, add_complex, norm}

  abbrev zero_f32 : F
  zero_f32 = lit (pos 0) 1

  new : F → ℕ → GoertzelDetector fl
  new m n =
      let tau_m_over_n = div (mul tau m) (of_int (pos n)) in
      record {
        w_n = zero_f32;
        w_n_z1 = zero_f32;
        w_n_z2 = zero_f32;
        k_fb = mul (cos tau_m_over_n) (lit (pos 2) 1);
        k_ff = c_neg (c_exp (c_new zero_f32 (neg tau_m_over_n)));
        n = n;
      }

  unfoldable pub from_hz : F → ℕ → GoertzelDetector fl
  unfolding new
  from_hz frequency_hz n = new (div frequency_hz (div (lit (pos 8000) 1) (of_int (pos n)))) n

  -- The power, and the detector with its state cleared.
  unfoldable pub poll : GoertzelDetector fl → F × GoertzelDetector fl
  poll d =
      let y_n = add_complex d.w_n (mul_complex d.w_n_z1 d.k_ff) in
      let magnitude = norm y_n in
      (
        mul (log10 (div magnitude (of_int (pos d.n)))) (lit (pos 20) 1),
        record d { w_n = zero_f32; w_n_z1 = zero_f32; w_n_z2 = zero_f32 },
      )

  unfoldable pub step : GoertzelDetector fl → F → GoertzelDetector fl
  step d x_n =
      let next = sub (add x_n (mul d.w_n d.k_fb)) d.w_n_z1 in
      record d { w_n_z2 = d.w_n_z1; w_n_z1 = d.w_n; w_n = next }

  unfoldable pub iterate : GoertzelDetector fl → ℕ → F → Outcome (GoertzelDetector fl)
  unfolding step
  iterate d iteration x_n = do assert (ltb iteration d.n); ok (step d x_n)
