-- ===== src/Firmware/Report/Parts.antt =====
-- The parts of the report on a chip whose registers keep their values (tedium-soc/src/main.rs).
use tedium.Common.{
  ℕ, zero, suc, ◌+◌, ◌*◌, ◌%◌, ◌^◌, ◌<◌, ◌≡◌, refl, ap, sym, subst, All-range, [], ◌∷◌, replicate,
  arith, get_or, u8, bit_and, bit_or, range, lt→ltb,
}
use mathlib.Core.List.{map, append-nil}
use tedium.Common.Outcome.{ok}
use tedium.Registers.Bitfield.{Bitfield, get_field}
use tedium.Registers.Framing.{rdlbcr_layout}
use tedium.Device.Offsets.{framer_offset}
use tedium.Device.Accessors.{
  access_framer, rlcisr_x, rlcisr_x_map, rdlbcr, dlsr, ss7sr, rsar_x, lapdbcr0, lapdbcr1,
}
use tedium.Interrupt.Wire.{pack, put_controller, put_hdlc, put_signaling, put_t1frame}
use tedium.Firmware.Effect.{lift, write_fifo, for_each}
use tedium.Firmware.Report.{
  evens, lapdbcr_of, forward, report_loopback_code, report_slip, report_alarm, report_signaling,
  report_controller, report_hdlc, report_t1frame,
}
use tedium.Firmware.Report.Steps.{All-evens}
use tedium.Firmware.Report.Blocks.{nibbles}
use tedium.Firmware.Report.Sound.{rbufptr-lt}
use tedium.Firmware.Report.Snapshot.{keeping, buffer_at, at, controller, t1frame}
use tedium.Firmware.Report.Kept.{
  Does, then-Does, for_each-Does, when_set-Does, write-Does, access_framer-at, read-Does,
  forward-Does,
}

buffer_at-lt : (p : ℕ) → buffer_at p < 0x1000
buffer_at-lt p = ground arith

map-range : (n start b : ℕ) → map (λ _. b) (range start n) ≡ replicate n b
unfolding range
map-range zero start b = refl
map-range (suc n) start b = ap (λ bs. b ∷ bs) (map-range n (suc start) b)

module _ (bf : Bitfield) (memory : ℕ → ℕ) (c : ℕ) (h : c < 8) where
  pub report_loopback_code-Does : Does (report_loopback_code (keeping memory) c) tt (
      at bf memory c 0xb0a
      ∷ at bf memory c 0xb14
      ∷ at bf memory c 0xb1a
      ∷ at bf memory c 0xb1c
      ∷ at bf memory c 0xb1e
      ∷ at bf memory c 0xb20
      ∷ at bf memory c 0xb22
      ∷ at bf memory c 0xb24
      ∷ [])
  unfolding report_loopback_code range rlcisr_x
  report_loopback_code-Does =
      for_each-Does (range 0 8) (λ i. forward (keeping memory) (rlcisr_x c i))
        (λ i. at bf memory c (get_or rlcisr_x_map i 0))
        (
          forward-Does bf memory c h 0xb0a _ (omega arith) refl,
          (
            forward-Does bf memory c h 0xb14 _ (omega arith) refl,
            (
              forward-Does bf memory c h 0xb1a _ (omega arith) refl,
              (
                forward-Does bf memory c h 0xb1c _ (omega arith) refl,
                (
                  forward-Does bf memory c h 0xb1e _ (omega arith) refl,
                  (
                    forward-Does bf memory c h 0xb20 _ (omega arith) refl,
                    (
                      forward-Does bf memory c h 0xb22 _ (omega arith) refl,
                      (forward-Does bf memory c h 0xb24 _ (omega arith) refl, tt),
                    ),
                  ),
                ),
              ),
            ),
          ),
        )

  pub report_slip-Does : Does (report_slip (keeping memory) c) tt (at bf memory c 0xb08 ∷ [])
  unfolding report_slip framer_offset
  report_slip-Does = forward-Does bf memory c h 0xb08 _ (omega arith) refl

  pub report_alarm-Does :
      Does
        (report_alarm (keeping memory) c)
        tt
        (at bf memory c 0xb02 ∷ at bf memory c 0xb0e ∷ at bf memory c 0xb40 ∷ [])
  unfolding report_alarm framer_offset
  report_alarm-Does =
      then-Does _ _ tt tt _ _ (forward-Does bf memory c h 0xb02 _ (omega arith) refl) (
        then-Does _ _ tt tt _ _ (forward-Does bf memory c h 0xb0e _ (omega arith) refl)
          (forward-Does bf memory c h 0xb40 _ (omega arith) refl))

  lapdbcr_of-Does : (p : ℕ) → p < 2 → Does (lift (lapdbcr_of c p)) (c * 4096 + buffer_at p) []
  unfolding lift lapdbcr_of lapdbcr0 lapdbcr1
  lapdbcr_of-Does zero k = rw (access_framer-at bf memory c h 0x600 (omega arith)) refl
  lapdbcr_of-Does (suc zero) k = rw (access_framer-at bf memory c h 0x700 (omega arith)) refl
  lapdbcr_of-Does (suc (suc p)) k = absurd (omega (arith, k))

  report_controller-Does :
      (i dlsr_at rdlbcr_at ss7sr_at : ℕ)
      → dlsr_at < 0x1000
      → rdlbcr_at < 0x1000
      → ss7sr_at < 0x1000
      → dlsr c i ≡ access_framer c dlsr_at
      → rdlbcr c i ≡ access_framer c rdlbcr_at
      → ss7sr c i ≡ access_framer c ss7sr_at
      → Does
          (report_controller bf (keeping memory) c i)
          tt
          (put_controller (controller bf memory c dlsr_at rdlbcr_at ss7sr_at))
  unfolding report_controller put_controller
  report_controller-Does i d r s l_d l_r l_s e_d e_r e_s =
      let byte = at bf memory c r in
      let count = get_field bf rdlbcr_layout "RDLBC" byte in
      let p = get_field bf rdlbcr_layout "RBUFPTR" byte in
      let o = buffer_at p in
      let body =
        forward-Does bf memory c h o (ok (c * 4096 + o)) (buffer_at-lt p)
          (sym (access_framer-at bf memory c h o (buffer_at-lt p))) in
      let loop =
        subst
          (Does (for_each (range 0 count) (λ _. forward (keeping memory) (ok (c * 4096 + o)))) tt)
          (map-range count 0 (at bf memory c o))
          (for_each-Does (range 0 count) _ (λ _. at bf memory c o)
            (All-range _ 0 count (λ _ _ _. body))) in
      then-Does _ _ tt tt _ _ (forward-Does bf memory c h d _ l_d e_d) (
        then-Does _ _ byte tt _ _ (read-Does bf memory c h r _ l_r e_r) (
          then-Does _ _ tt tt _ _ (write-Does byte) (
            then-Does _ _ (c * 4096 + o) tt _ _ (lapdbcr_of-Does p (rbufptr-lt bf byte))
              (then-Does _ _ tt tt _ _ loop (forward-Does bf memory c h s _ l_s e_s)))))

  pub report_hdlc-Does : Does (report_hdlc bf (keeping memory) c) tt (
      put_hdlc (record {
        controller_0 = controller bf memory c 0xb06 0x115 0xb10;
        controller_1 = controller bf memory c 0xb16 0x145 0xb18;
        controller_2 = controller bf memory c 0xb26 0x155 0xb28;
      }))
  unfolding report_hdlc put_hdlc for_each range dlsr rdlbcr ss7sr
  report_hdlc-Does =
      then-Does _ _ tt tt _ _
        (report_controller-Does 0 0xb06 0x115 0xb10 (omega arith) (omega arith) (omega arith) refl
          refl refl)
        (then-Does _ _ tt tt _ _
          (report_controller-Does 1 0xb16 0x145 0xb18 (omega arith) (omega arith) (omega arith) refl
            refl refl)
          (rw (← append-nil (put_controller (controller bf memory c 0xb26 0x155 0xb28))) (
            then-Does _ _ tt tt _ _
              (report_controller-Does 2 0xb26 0x155 0xb28 (omega arith) (omega arith) (omega arith)
                refl refl refl)
              refl)))

  report_signaling-Does :
      (n : ℕ)
      → n + 1 < 24
      → Does
          (report_signaling (keeping memory) c n)
          tt
          ((at bf memory c (0x500 + n) % 16 * 16 + at bf memory c (0x500 + (n + 1)) % 16) ∷ [])
  unfolding report_signaling rsar_x
  report_signaling-Does n k =
      let even = at bf memory c (0x500 + n) in
      let odd = at bf memory c (0x500 + (n + 1)) in
      then-Does _ _ even tt _ _
        (read-Does bf memory c h (0x500 + n) _ (omega (arith, k))
          (rw (lt→ltb n 24 (omega (arith, k))) refl))
        (then-Does _ _ odd tt _ _
          (read-Does bf memory c h (0x500 + (n + 1)) _ (omega (arith, k))
            (rw (lt→ltb (n + 1) 24 k) refl))
          (subst (λ b. Does (write_fifo (bit_or (u8 (even * 2 ^ 4)) (bit_and odd 0xf))) tt (b ∷ []))
            (nibbles (Unit {0}) (keeping memory) c h even odd) (write-Does _)))

  report_signals-Does :
      Does
        (for_each (evens 0 12) (report_signaling (keeping memory) c))
        tt
        (put_signaling (record { rsars = map (λ i. at bf memory c (0x500 + i) % 16) (range 0 24) }))
  unfolding put_signaling evens pack range
  report_signals-Does =
      for_each-Does (evens 0 12) (report_signaling (keeping memory) c)
        (λ n. at bf memory c (0x500 + n) % 16 * 16 + at bf memory c (0x500 + (n + 1)) % 16)
        (All-evens _ 0 12 (λ n k. report_signaling-Does n (omega (arith, k))))

  pub report_t1frame-Does :
      Does (report_t1frame bf (keeping memory) c) tt (put_t1frame (t1frame bf memory c))
  unfolding report_t1frame put_t1frame framer_offset
  report_t1frame-Does =
      then-Does _ _ (at bf memory c 0xb04) tt _ _
        (read-Does bf memory c h 0xb04 _ (omega arith) refl)
        (then-Does _ _ tt tt _ _ (write-Does (at bf memory c 0xb04))
          (when_set-Does _ _ put_signaling _ report_signals-Does))
