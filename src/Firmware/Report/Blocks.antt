-- ===== src/Firmware/Report/Blocks.antt =====
-- What each block of the report puts, in the terms of the format.
use tedium.Common.{
  ℕ, suc, ◌+◌, ◌*◌, ◌%◌, ◌^◌, ◌<◌, ◌≡◌, refl, ap, ◌∙◌, Bool-cases, none, some, List, [], ◌∷◌,
  length, ◌==◌, ==_iff, arith, All, u8, bit_and, bit_or, bit_or-shifted, inl, inr, range, All-range,
  length-range,
}
use tedium.Registers.Bitfield.{Bitfield}
use tedium.Device.Offsets.{FramerRegister, framer_offset, framer_offset-lt}
use tedium.Device.Offsets
use tedium.Device.Accessors.{access_framer}
use tedium.Device.Accessors
use tedium.Device.Accessors.Tables.{access_framer-Reaches, rlcisr_x-Reaches, rsar_x-Reaches}
use tedium.Interrupt.Wire.{
  optional, pack, put_loopback_code, put_slip, put_alarm, put_signaling, put_t1frame, Flagged,
  IsLoopbackCode, IsSignaling, IsT1Frame,
}
use tedium.Interrupt.RoundTrip.{low_nibble}
use tedium.Firmware.Effect.{
  Effect, Bus, for_each, when_set, Emits, pure-Emits, >>=-Emits, weaken-Emits, write_fifo-Emits,
  read_register-Emits, for_each-Emits,
}
use tedium.Firmware.Report.{
  evens, forward, report_loopback_code, report_slip, report_alarm, report_signaling, report_t1frame,
}
use tedium.Firmware.Report.Steps.{forward-Emits, All-evens, length-evens}

-- The bytes are those of a value that satisfies `P`.
abbrev pub Puts : {A : Type 0} → (A → List ℕ) → (A → Type 0) → Unit {0} → List ℕ → Type 0
Puts {A} put P _ out = (a : A) × P a × (out ≡ put a)

-- The accessors that the report uses are all there, on each of the eight channels.
module _ (S : Type 0) (bus : Bus S) (c : ℕ) (h : c < 8) where
  forward_framer-Emits :
      (r : FramerRegister)
      → Emits
          (forward bus (access_framer c (framer_offset r)))
          (λ _ out. (b : ℕ) × (b < 256) × (out ≡ b ∷ []))
  forward_framer-Emits r =
      forward-Emits S bus _
        (access_framer-Reaches c (framer_offset r) h (omega (arith, framer_offset-lt r)))

  pub report_slip-Emits : Emits (report_slip bus c) (Puts put_slip (λ _. Unit {0}))
  unfolding report_slip put_slip
  report_slip-Emits =
      weaken-Emits S (forward bus (access_framer c (framer_offset Offsets.sbisr))) _ _
        (forward_framer-Emits Offsets.sbisr) (λ _ out (b, l, e). (record { sbisr = b }, tt, e))

  pub report_alarm-Emits : Emits (report_alarm bus c) (Puts put_alarm (λ _. Unit {0}))
  unfolding report_alarm put_alarm
  report_alarm-Emits = >>=-Emits S _ _ _ _ (forward_framer-Emits Offsets.aeisr) (λ _ _ (x, _, e).
      >>=-Emits S _ _ _ _ (forward_framer-Emits Offsets.exzsr) (λ _ _ (y, _, f).
        weaken-Emits S _ _ _ (forward_framer-Emits Offsets.ciasr)
          (λ _ _ (z, _, g). (record { aeisr = x; exzsr = y; ciasr = z }, tt, rw (e, f, g) refl))))

  pub report_loopback_code-Emits :
      Emits (report_loopback_code bus c) (Puts put_loopback_code IsLoopbackCode)
  unfolding report_loopback_code put_loopback_code
  report_loopback_code-Emits =
      weaken-Emits S _ _ _
        (for_each-Emits S (range 0 8) (λ i. forward bus (Accessors.rlcisr_x c i)) (λ b. b < 256)
          (All-range _ 0 8 (λ i _ k. forward-Emits S bus _ (rlcisr_x-Reaches c h i k))))
        (λ _ out (l, _). (record { rlcisrs = out }, l ∙ length-range 0 8, refl))

  -- One byte of the signaling block holds two registers' low nibbles.
  abbrev TwoNibbles : ℕ → Type 0
  TwoNibbles b = (even : ℕ) × (odd : ℕ) × (even < 16) × (odd < 16) × (b ≡ even * 16 + odd)

  pub nibbles :
      (even odd : ℕ) → bit_or (u8 (even * 2 ^ 4)) (bit_and odd 0xf) ≡ even % 16 * 16 + odd % 16
  nibbles even odd =
      let high : u8 (even * 2 ^ 4) ≡ even % 16 * 2 ^ 4 = omega arith in
      rw (low_nibble odd, high)
        (omega (arith, bit_or-shifted 4 (even % 16) (odd % 16) (omega arith)))

  report_signaling-Emits :
      (n : ℕ)
      → suc n < 24
      → Emits (report_signaling bus c n) (λ _ out. (b : ℕ) × TwoNibbles b × (out ≡ b ∷ []))
  unfolding report_signaling
  report_signaling-Emits n k =
      let (a_0, e_0, le_0) = rsar_x-Reaches c h n (omega arith) in
      let (a_1, e_1, le_1) = rsar_x-Reaches c h (n + 1) (omega arith) in
      >>=-Emits S _ _ _ _ (read_register-Emits S bus _ a_0 (e_0, le_0)) (λ even _ (_, f_0).
        >>=-Emits S _ _ _ _ (read_register-Emits S bus _ a_1 (e_1, le_1)) (λ odd _ (_, f_1).
          weaken-Emits S _ _ _ (write_fifo-Emits S _) (λ _ _ g. (
            even % 16 * 16 + odd % 16,
            (even % 16, odd % 16, omega arith, omega arith, refl),
            rw (f_0, f_1, g, nibbles even odd) refl,
          ))))

  -- Such bytes are the packed form of twice as many values.
  packed :
      (out : List ℕ)
      → All TwoNibbles out
      → (xs : List ℕ) × (length xs ≡ length out + length out)
        × All (λ v. v < 16) xs
        × (out ≡ pack xs)
  unfolding pack
  packed [] p = ([], refl, tt, refl)
  packed (b ∷ out) ((even, odd, l_0, l_1, e), p) =
      let (xs, l, small, f) = packed out p in
      (even ∷ odd ∷ xs, omega (arith, l), (l_0, (l_1, small)), rw (e, f) refl)

  report_signals-Emits :
      Emits (for_each (evens 0 12) (report_signaling bus c)) (Puts put_signaling IsSignaling)
  unfolding put_signaling
  report_signals-Emits =
      weaken-Emits S _ _ _
        (for_each-Emits S (evens 0 12) (report_signaling bus c) TwoNibbles
          (All-evens _ 0 12 report_signaling-Emits))
        (λ _ out (l, p).
          let (xs, m, small, e) = packed out p in
          (record { rsars = xs }, (m ∙ ap (λ n. n + n) (l ∙ length-evens 0 12), small), e))

  -- A guarded block puts its part exactly if the flag is set.
  pub when_set-Emits :
      {A : Type 0} (flag : ℕ) (m : Effect S (Unit {0})) (put : A → List ℕ) (P : A → Type 0)
      → Emits m (Puts put P)
      → Emits (when_set flag m) (Puts (optional put) (Flagged flag P))
  unfolding when_set
  when_set-Emits {A} flag m put P em = elim (Bool-cases (flag == 0)) [
    | inl e ↦ rw e (pure-Emits S tt _ (none, omega (arith, (==_iff flag 0).0 e), refl))
    | inr e ↦ rw e (weaken-Emits S m _ _ em (λ _ out (a, p, f). (some a, (e, p), f)))
  ]

  pub report_t1frame-Emits :
      (bf : Bitfield) → Emits (report_t1frame bf bus c) (Puts put_t1frame (IsT1Frame bf))
  unfolding report_t1frame put_t1frame
  report_t1frame-Emits bf =
      let (a, e, le) =
        access_framer-Reaches c (framer_offset Offsets.fisr) h
          (omega (arith, framer_offset-lt Offsets.fisr)) in
      >>=-Emits S _ _ _ _ (read_register-Emits S bus _ a (e, le)) (λ fisr _ (_, f).
        >>=-Emits S _ _ _ _ (write_fifo-Emits S fisr) (λ _ _ g.
          weaken-Emits S _ _ _ (when_set-Emits _ _ put_signaling IsSignaling report_signals-Emits)
            (λ _ out (sig, p, k). (record { fisr = fisr; sig = sig }, p, rw (f, g, k) refl))))
