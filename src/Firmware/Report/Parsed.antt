-- ===== src/Firmware/Report/Parsed.antt =====
-- The firmware's report of a chip whose registers keep their values, as the host parses it
-- (tedium-soc/src/main.rs, tedium/tools/tedium-tool/src/framer/interrupt.rs).
use tedium.Common.{
  ◌≢◌, ℕ, ◌+◌, ◌%◌, ◌<◌, ◌≡◌, refl, Bool-cases, false, List, [], ◌==◌, ==_iff, arith, ◌⊎◌, u8,
  bit_and, inl, inr, range, length-replicate,
}
use mathlib.Core.List.{map}
use tedium.Common.Outcome.{ok}
use tedium.Registers.Bitfield.{Bitfield}
use tedium.Device.Offsets.{framer_offset}
use tedium.Interrupt.{from_slice}
use tedium.Interrupt.Wire.{
  put_loopback_code, put_hdlc, put_slip, put_alarm, put_t1frame, encode, Flagged, IsController,
  IsSignaling, IsStatus,
}
use tedium.Interrupt.RoundTrip.{from_slice-encode}
use tedium.Firmware.Effect.{◌>>◌, write_fifo}
use tedium.Firmware.Report.{report_blocks, read_bisr, report_bisr, report}
use tedium.Firmware.Report.Snapshot.{keeping, flagged, at, controller, snapshot}
use tedium.Firmware.Report.Kept.{Does, then-Does, when_set-Does, write-Does, read-Does}
use tedium.Firmware.Report.Parts.{
  report_loopback_code-Does, report_slip-Does, report_alarm-Does, report_hdlc-Does,
  report_t1frame-Does,
}

flagged-Flagged :
    {A : Type 0} (flag : ℕ) (P : A → Type 0) (a : A) → P a → Flagged flag P (flagged flag a)
flagged-Flagged flag P a p = elim (Bool-cases (flag == 0)) [
  | inl e ↦ rw e ((==_iff flag 0).0 e)
  | inr e ↦ rw e (e, p)
]

module _ (bf : Bitfield) (memory : ℕ → ℕ) (c : ℕ) where
  controller-IsController : (d r s : ℕ) → IsController bf (controller bf memory c d r s)
  controller-IsController d r s = length-replicate _ _

  signals-IsSignaling :
      IsSignaling (record { rsars = map (λ i. at bf memory c (0x500 + i) % 16) (range 0 24) })
  unfolding range
  signals-IsSignaling = (refl, omega arith)

  snapshot-IsStatus : IsStatus bf (snapshot bf memory c)
  snapshot-IsStatus = record {
    lbcode = flagged-Flagged _ _ _ refl;
    hdlc = flagged-Flagged _ _ _ (
      controller-IsController 0xb06 0x115 0xb10,
      controller-IsController 0xb16 0x145 0xb18,
      controller-IsController 0xb26 0x155 0xb28,
    );
    slip = flagged-Flagged _ _ _ tt;
    alarm = flagged-Flagged _ _ _ tt;
    t1frame = flagged-Flagged _ _ _ (flagged-Flagged _ _ _ signals-IsSignaling);
  }

  module _ (h : c < 8) where
    report_blocks-Does :
        Does
          (write_fifo (u8 c)
            >> (write_fifo (at bf memory c 0xb00)
                >> report_blocks bf (keeping memory) c (at bf memory c 0xb00)))
          tt
          (encode (snapshot bf memory c))
    unfolding report_blocks encode put_loopback_code put_slip put_alarm
    report_blocks-Does =
        let channel : u8 c ≡ c = omega (arith, h) in
        rw channel (
          then-Does _ _ tt tt _ _ (write-Does c) (
            then-Does _ _ tt tt _ _ (write-Does (at bf memory c 0xb00)) (
              then-Does _ _ tt tt _ _
                (when_set-Does _ _ put_loopback_code _ (report_loopback_code-Does bf memory c h))
                (then-Does _ _ tt tt _ _
                  (when_set-Does _ _ put_hdlc _ (report_hdlc-Does bf memory c h))
                  (then-Does _ _ tt tt _ _
                    (when_set-Does _ _ put_slip _ (report_slip-Does bf memory c h))
                    (then-Does _ _ tt tt _ _
                      (when_set-Does _ _ put_alarm _ (report_alarm-Does bf memory c h))
                      (when_set-Does _ _ put_t1frame _ (report_t1frame-Does bf memory c h))))))))

    -- Without a resync, on each of the eight channels of a chip whose registers keep their values: if
    -- none of the reported interrupts is pending in BISR the firmware puts no byte; otherwise the host
    -- parses what it puts to the status that shows, part by part, the registers of that channel at
    -- their addresses.
    pub report-snapshot :
        ((bit_and (at bf memory c 0xb00) 0x6f ≡ 0)
          × (report bf (keeping memory) c false tt ≡ ok (tt, [], tt)))
        ⊎ ((bit_and (at bf memory c 0xb00) 0x6f ≢ 0)
            × ((out : List ℕ) × (report bf (keeping memory) c false tt ≡ ok (tt, out, tt))
                × (from_slice bf out ≡ ok (snapshot bf memory c))))
    unfolding report read_bisr report_bisr framer_offset
    report-snapshot =
        let bisr = read-Does bf memory c h 0xb00 _ (omega arith) refl in
        elim (Bool-cases (bit_and (at bf memory c 0xb00) 0x6f == 0)) [
          | inl e ↦
              inl ((==_iff _ 0).0 e, then-Does _ _ (at bf memory c 0xb00) tt [] [] bisr (rw e refl))
          | inr e ↦ inr (
            (λ n. ground (arith, e, n, ==_iff (bit_and (at bf memory c 0xb00) 0x6f) 0)),
            (
              encode (snapshot bf memory c),
              then-Does _ _ (at bf memory c 0xb00) tt [] _ bisr (rw e report_blocks-Does),
              from_slice-encode bf (snapshot bf memory c) snapshot-IsStatus,
            ),
          )
        ]
