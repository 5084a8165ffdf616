-- ===== src/Firmware/Report/Buffers.antt =====
-- The report of full HDLC buffers (tedium-soc/src/main.rs), against the buffer of
-- INTERRUPT_BYTES_MAX bytes of the host (tedium/tools/tedium-tool/src/framer/usb.rs).
use tedium.Common.{
  ℕ, zero, suc, ◌+◌, ◌*◌, ◌%◌, ◌<◌, ◌≤◌, ◌≡◌, refl, ◌↔◌, false, List, [], ◌∷◌, ◌++◌, length, arith,
  lt→ltb, u8, range, length-range, length-append, All, All-range,
}
use mathlib.Core.List.{append-nil}
use tedium.Common.Outcome.{Outcome, ok}
use tedium.Registers.Bitfield.{Bitfield, get_field}
use tedium.Registers.Framing.{rdlbcr_layout}
use tedium.Registers.Counters.{bisr_layout}
use tedium.Device.Offsets.{framer_offset, framer_offset-lt}
use tedium.Device.Offsets
use tedium.Device.Accessors.{lapdbcr0}
use tedium.Device.Accessors.Tables.{
  Reaches, access_framer-Reaches, rdlbcr-Reaches, dlsr-Reaches, ss7sr-Reaches, lapdbcr0-Reaches,
}
use tedium.Interrupt.Size.{interrupt_bytes_max}
use tedium.Firmware.Effect.{Effect, Bus, ◌>>=◌, lift, write_fifo, for_each, when_set, read_register}
use tedium.Firmware.Report.{
  lapdbcr_of, forward, report_controller, report_hdlc, report_blocks, read_bisr, report_bisr,
  report,
}

-- A chip whose first answer is a BISR with HDLC alone, and every later one the byte `n`: the count
-- of each of the three controllers.
abbrev pub buffers : ℕ → Bus ℕ
buffers n address zero = (0x08, 1)
buffers n address (suc s) = (n, 1)

-- The run ends with the value `v`, has put `k` bytes, and the chip goes on to answer `n`.
abbrev Puts : {A : Type 0} → Effect ℕ A → A → ℕ → Type 0
Puts m v k = (out : List ℕ) × (m 1 ≡ ok (v, out, 1)) × (length out ≡ k)

then-Puts :
    {A B : Type 0} (m : Effect ℕ A) (k : A → Effect ℕ B) (v : A) (w : B) (i j : ℕ)
    → Puts m v i
    → Puts (k v) w j
    → Puts (m >>= k) w (i + j)
unfolding ◌>>=◌
then-Puts m k v w i j (out, e, l) (more, f, h) =
    (out ++ more, rw (e, f) refl, omega (arith, length-append out more, l, h))

for_each-Puts :
    (xs : List ℕ) (body : ℕ → Effect ℕ (Unit {0})) (k : ℕ)
    → All (λ x. Puts (body x) tt k) xs
    → Puts (for_each xs body) tt (length xs * k)
unfolding for_each
for_each-Puts [] body k h = ([], refl, omega arith)
for_each-Puts (x ∷ xs) body k h =
    let (out, e, l) = then-Puts (body x) _ tt tt k _ h.0 (for_each-Puts xs body k h.1) in
    (out, e, omega (arith, l))

module _ (bf : Bitfield) (n c : ℕ) (small : n < 128) (h : c < 8) where
  read-Puts : (address : Outcome ℕ) → Reaches address → Puts (read_register (buffers n) address) n 0
  unfolding read_register lift ◌>>=◌
  read-Puts address (a, e, l) =
      let byte : n % 256 ≡ n = omega (arith, small) in
      ([], rw (e, lt→ltb a 0x10000 l, byte) refl, refl)

  write-Puts : (b : ℕ) → Puts (write_fifo b) tt 1
  unfolding write_fifo
  write-Puts b = (b ∷ [], refl, refl)

  forward-Puts : (address : Outcome ℕ) → Reaches address → Puts (forward (buffers n) address) tt 1
  unfolding forward
  forward-Puts address r =
      then-Puts (read_register (buffers n) address) write_fifo n tt 0 1 (read-Puts address r)
        (write-Puts n)

  lapdbcr_of-Puts :
      (a : ℕ)
      → lapdbcr0 c 0 ≡ ok a
      → Puts (lift (lapdbcr_of c (get_field bf rdlbcr_layout "RBUFPTR" n))) a 0
  unfolding lift lapdbcr_of get_field rdlbcr_layout
  lapdbcr_of-Puts a e =
      let first : bf.get 7 1 n ≡ 0 = omega (arith, bf.get_lem 7 1 n, small) in
      ([], rw (first, e) refl, refl)

  count-eq : get_field bf rdlbcr_layout "RDLBC" n ≡ n
  unfolding get_field rdlbcr_layout
  count-eq = omega (arith, bf.get_lem 0 7 n, small)

  report_controller-Puts : (i : ℕ) → i < 3 → Puts (report_controller bf (buffers n) c i) tt (n + 3)
  unfolding report_controller
  report_controller-Puts i k =
      let (a, e, l) = lapdbcr0-Reaches c h 0 (omega arith) in
      let count = get_field bf rdlbcr_layout "RDLBC" n in
      let (out, f, m) = then-Puts _ _ tt tt 1 _ (forward-Puts _ (dlsr-Reaches c h i k)) (
        then-Puts _ _ n tt 0 _ (read-Puts _ (rdlbcr-Reaches c h i k)) (
          then-Puts _ _ tt tt 1 _ (write-Puts n) (
            then-Puts _ _ a tt 0 _ (lapdbcr_of-Puts a e) (
              then-Puts _ _ tt tt _ 1
                (for_each-Puts (range 0 count) (λ _. forward (buffers n) (ok a)) 1
                  (All-range _ 0 count (λ _ _ _. forward-Puts (ok a) (a, refl, l))))
                (forward-Puts _ (ss7sr-Reaches c h i k)))))) in
      (out, f, omega (arith, m, length-range 0 count, count-eq))

  report_hdlc-Puts : Puts (report_hdlc bf (buffers n) c) tt (3 * (n + 3))
  unfolding report_hdlc range
  report_hdlc-Puts =
      for_each-Puts (range 0 3) (report_controller bf (buffers n) c) (n + 3)
        (All-range _ 0 3 (λ i _ k. report_controller-Puts i k))

  report_blocks-Puts : Puts (report_blocks bf (buffers n) c 0x08) tt (3 * (n + 3))
  unfolding report_blocks when_set get_field bisr_layout ◌>>=◌
  report_blocks-Puts =
      let (out, e, l) = report_hdlc-Puts in
      (
        out,
        rw
            (
              bf.get_lem 6 1 8,
              bf.get_lem 3 1 8,
              bf.get_lem 2 1 8,
              bf.get_lem 1 1 8,
              bf.get_lem 0 1 8,
              e,
              append-nil out,
            )
            refl,
        l,
      )

  -- Without a resync, on each of the eight channels, of a chip that answers the first read, that of
  -- BISR, with HDLC alone and every later read with a byte `n` below 128, so that the byte count of
  -- each of the three controllers is `n`: the firmware's report has 3 n + 11 bytes, which fit the
  -- host's buffer of INTERRUPT_BYTES_MAX bytes if and only if `n` is at most 81.
  pub length-report-buffers :
      (out : List ℕ) × (report bf (buffers n) c false 0 ≡ ok (tt, out, 1))
      × (length out ≡ 3 * n + 11)
      × ((length out ≤ interrupt_bytes_max) ↔ (n ≤ 81))
  unfolding report read_bisr report_bisr read_register lift write_fifo ◌>>=◌
  length-report-buffers =
      let (a, f, b) =
        access_framer-Reaches c (framer_offset Offsets.bisr) h
          (omega (arith, framer_offset-lt Offsets.bisr)) in
      let (out, e, l) = report_blocks-Puts in
      (u8 c ∷ 0x08 ∷ out, rw (f, lt→ltb a 0x10000 b, e) refl, omega (arith, l), ground (arith, l))
