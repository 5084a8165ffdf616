-- ===== src/Firmware/Report/Sound.antt =====
-- The whole report, and that the host reads it back.
use tedium.Common.{
  ◌≢◌, ℕ, zero, suc, ◌<◌, ◌≡◌, refl, ◌∙◌, Bool, true, false, Bool-cases, List, [], ◌==◌, ==_iff,
  arith, u8, bit_and, ◌⊎◌, inl, inr, range, All-range, length-range,
}
use mathlib.Core.List.{append-nil}
use tedium.Common.Outcome.{ok}
use tedium.Registers.Bitfield.{Bitfield, get_field}
use tedium.Registers.Framing.{rdlbcr_layout}
use tedium.Device.Offsets.{FramerRegister, framer_offset, framer_offset-lt}
use tedium.Device.Offsets
use tedium.Device.Accessors.Tables.{
  Reaches, access_framer-Reaches, rdlbcr-Reaches, dlsr-Reaches, ss7sr-Reaches, lapdbcr0-Reaches,
  lapdbcr1-Reaches,
}
use tedium.Interrupt.{FramerInterruptStatus, from_slice}
use tedium.Interrupt.Wire.{
  put_loopback_code, put_controller, put_hdlc, put_slip, put_alarm, put_t1frame, encode,
  IsLoopbackCode, IsController, IsHdlc, IsT1Frame, IsStatus,
}
use tedium.Interrupt.RoundTrip.{from_slice-encode}
use tedium.Firmware.Effect.{
  Bus, ◌>>=◌, ◌>>◌, write_fifo, for_each, Emits, pure-Emits, >>=-Emits, weaken-Emits,
  write_fifo-Emits, read_register-Emits, for_each-Emits,
}
use tedium.Firmware.Report.{
  lapdbcr_of, forward, report_controller, report_hdlc, report_blocks, read_bisr, report_bisr,
  report,
}
use tedium.Firmware.Report.Steps.{forward-Emits, lift-Emits}
use tedium.Firmware.Report.Blocks.{
  Puts, report_loopback_code-Emits, report_slip-Emits, report_alarm-Emits, report_t1frame-Emits,
  when_set-Emits,
}

-- The buffer pointer of RDLBCR is one bit: `unreachable!()` is not reached.
pub rbufptr-lt : (bf : Bitfield) (v : ℕ) → get_field bf rdlbcr_layout "RBUFPTR" v < 2
unfolding get_field rdlbcr_layout
rbufptr-lt bf v = omega (arith, bf.get_lem 7 1 v)

-- The host is owed nothing if none of the reported interrupts is pending in BISR, and otherwise the
-- bytes of a well-formed status of the channel and that BISR.
abbrev pub IsStatusOf : Bitfield → ℕ → ℕ → List ℕ → Type 0
IsStatusOf bf c bisr out =
    (status : FramerInterruptStatus) × (status.channel_index ≡ c)
    × (status.bisr ≡ bisr)
    × IsStatus bf status
    × (out ≡ encode status)

abbrev pub IsReport : Bitfield → ℕ → ℕ → List ℕ → Type 0
IsReport bf c bisr out =
    ((bit_and bisr 0x6f ≡ 0) × (out ≡ [])) ⊎ ((bit_and bisr 0x6f ≢ 0) × IsStatusOf bf c bisr out)

module _ (S : Type 0) (bf : Bitfield) (bus : Bus S) (c : ℕ) (h : c < 8) where
  lapdbcr_of-Reaches : (p : ℕ) → p < 2 → Reaches (lapdbcr_of c p)
  unfolding lapdbcr_of
  lapdbcr_of-Reaches zero l = lapdbcr0-Reaches c h 0 (omega arith)
  lapdbcr_of-Reaches (suc zero) l = lapdbcr1-Reaches c h 0 (omega arith)
  lapdbcr_of-Reaches (suc (suc p)) l = absurd (omega arith)

  report_controller-Emits :
      (i : ℕ) → i < 3 → Emits (report_controller bf bus c i) (Puts put_controller (IsController bf))
  unfolding report_controller put_controller
  report_controller-Emits i k =
      let (a, e, le) = rdlbcr-Reaches c h i k in
      >>=-Emits S _ _ _ _ (forward-Emits S bus _ (dlsr-Reaches c h i k)) (λ _ _ (dlsr, _, e_0).
        >>=-Emits S _ _ _ _ (read_register-Emits S bus _ a (e, le)) (λ rdlbcr _ (_, e_1).
          >>=-Emits S _ _ _ _ (write_fifo-Emits S rdlbcr) (λ _ _ e_2.
            let (b, f, l_b) =
              lapdbcr_of-Reaches (get_field bf rdlbcr_layout "RBUFPTR" rdlbcr)
                (rbufptr-lt bf rdlbcr) in
            >>=-Emits S _ _ _ _ (lift-Emits S _ b f) (λ lapdbcr _ (same, e_3).
              >>=-Emits S _ _ _ _
                (for_each-Emits S (range 0 (get_field bf rdlbcr_layout "RDLBC" rdlbcr))
                  (λ _. forward bus (ok lapdbcr)) (λ v. v < 256)
                  (All-range _ 0 _ (λ _ _ _.
                    forward-Emits S bus (ok lapdbcr) (lapdbcr, refl, omega (arith, same, l_b)))))
                (λ _ bytes (l, _).
                  weaken-Emits S _ _ _ (forward-Emits S bus _ (ss7sr-Reaches c h i k))
                    (λ _ _ (ss7sr, _, e_4). (
                      record { dlsr = dlsr; rdlbcr = rdlbcr; data_bytes = bytes; ss7sr = ss7sr },
                      l ∙ length-range 0 _,
                      rw (e_0, e_1, e_2, e_3, e_4) refl,
                    )))))))

  report_hdlc-Emits : Emits (report_hdlc bf bus c) (Puts put_hdlc (IsHdlc bf))
  unfolding report_hdlc for_each range put_hdlc
  report_hdlc-Emits =
      >>=-Emits S _ _ _ _ (report_controller-Emits 0 (omega arith)) (λ _ _ (c_0, p_0, e_0).
        >>=-Emits S _ _ _ _ (report_controller-Emits 1 (omega arith)) (λ _ _ (c_1, p_1, e_1).
          >>=-Emits S _ _ _ _ (report_controller-Emits 2 (omega arith)) (λ _ _ (c_2, p_2, e_2).
            pure-Emits S tt _ (
              record { controller_0 = c_0; controller_1 = c_1; controller_2 = c_2 },
              (p_0, p_1, p_2),
              rw (e_0, e_1, e_2, append-nil (put_controller c_2)) refl,
            ))))

  report_status-Emits :
      (bisr : ℕ)
      → Emits
          (write_fifo (u8 c) >> (write_fifo bisr >> report_blocks bf bus c bisr))
          (λ _ out. IsStatusOf bf c bisr out)
  unfolding report_blocks encode
  report_status-Emits bisr = >>=-Emits S _ _ _ _ (write_fifo-Emits S (u8 c)) (λ _ _ e.
      >>=-Emits S _ _ _ _ (write_fifo-Emits S bisr) (λ _ _ f.
        >>=-Emits S _ _ _ _
          (when_set-Emits S bus c h _ _ put_loopback_code IsLoopbackCode
            (report_loopback_code-Emits S bus c h))
          (λ _ _ (lbcode, p_0, e_0).
            >>=-Emits S _ _ _ _
              (when_set-Emits S bus c h _ _ put_hdlc (IsHdlc bf) report_hdlc-Emits)
              (λ _ _ (hdlc, p_1, e_1).
                >>=-Emits S _ _ _ _
                  (when_set-Emits S bus c h _ _ put_slip (λ _. Unit {0})
                    (report_slip-Emits S bus c h))
                  (λ _ _ (slip, p_2, e_2).
                    >>=-Emits S _ _ _ _
                      (when_set-Emits S bus c h _ _ put_alarm (λ _. Unit {0})
                        (report_alarm-Emits S bus c h))
                      (λ _ _ (alarm, p_3, e_3).
                        weaken-Emits S _ _ _
                          (when_set-Emits S bus c h _ _ put_t1frame (IsT1Frame bf)
                            (report_t1frame-Emits S bus c h bf))
                          (λ _ _ (t1frame, p_4, e_4).
                            let channel : u8 c ≡ c = omega arith in
                            (
                              record {
                                channel_index = c;
                                bisr = bisr;
                                lbcode = lbcode;
                                hdlc = hdlc;
                                slip = slip;
                                alarm = alarm;
                                t1frame = t1frame;
                              },
                              refl,
                              refl,
                              record {
                                lbcode = p_0;
                                hdlc = p_1;
                                slip = p_2;
                                alarm = p_3;
                                t1frame = p_4;
                              },
                              rw (e, f, e_0, e_1, e_2, e_3, e_4, channel) refl,
                            ))))))))

  report_bisr-Emits :
      (bisr : ℕ) → Emits (report_bisr bf bus c bisr) (λ _ out. IsReport bf c bisr out)
  unfolding report_bisr
  report_bisr-Emits bisr = elim (Bool-cases (bit_and bisr 0x6f == 0)) [
    | inl e ↦ rw e (pure-Emits S tt _ (inl ((==_iff _ 0).0 e, refl)))
    | inr e ↦ rw e (
        weaken-Emits S _ _ _ (report_status-Emits bisr)
          (λ _ _ p. inr ((λ n. ground (arith, e, n, ==_iff (bit_and bisr 0x6f) 0)), p)))
  ]

  read_bisr-Emits : (resync : Bool) → Emits (read_bisr bf bus c resync) (λ _ out. out ≡ [])
  unfolding read_bisr
  read_bisr-Emits true = pure-Emits S _ _ refl
  read_bisr-Emits false =
      let (a, e, le) =
        access_framer-Reaches c (framer_offset Offsets.bisr) h
          (omega (arith, framer_offset-lt Offsets.bisr)) in
      weaken-Emits S _ _ _ (read_register-Emits S bus _ a (e, le)) (λ _ _ (_, f). f)

  -- On each of the eight channels, whatever the chip answers, the report ends without a panic. It
  -- reads BISR once and then either no reported interrupt is pending there and no byte is put, or
  -- one is and the bytes are those of a well-formed status of this channel and this BISR.
  pub report-IsReport :
      (resync : Bool) (s : S)
      → (bisr : ℕ) × (s_1 : S) × (out : List ℕ) × (s_2 : S) × (read_bisr bf bus c resync s
          ≡ ok (bisr, [], s_1))
        × (report bf bus c resync s ≡ ok (tt, out, s_2))
        × IsReport bf c bisr out
  unfolding report Emits ◌>>=◌
  report-IsReport resync s =
      let (bisr, none_put, s_1, e, f) = read_bisr-Emits resync s in
      let (_, out, s_2, g, p) = report_bisr-Emits bisr s_1 in
      (bisr, s_1, out, s_2, rw (← f) e, rw (e, g, f) refl, p)

  -- Where the report of one of the eight channels has put any bytes, the host parses them to a
  -- status of this channel, and its assertion that it has used all of them holds.
  pub report-from_slice :
      (resync : Bool) (s : S) (out : List ℕ) (s' : S)
      → report bf bus c resync s ≡ ok (tt, out, s')
      → out ≢ []
      → (status : FramerInterruptStatus) × (status.channel_index ≡ c)
        × (from_slice bf out ≡ ok status)
  report-from_slice resync s out s' e nonempty =
      let (bisr, s_1, out_1, s_2, _, f, p) = report-IsReport resync s in
      let same : out ≡ out_1 = cc (e, f) in
      elim p [
        | inl (_, none_put) ↦ absurd (nonempty (same ∙ none_put))
        | inr (_, (status, channel, _, q, g)) ↦
            (status, channel, rw (same, g) (from_slice-encode bf status q))
      ]
