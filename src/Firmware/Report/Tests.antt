-- ===== src/Firmware/Report/Tests.antt =====
-- A chip with a slip on channel 2.
use tedium.Common.{
  ◌≢◌, bit_and, ℕ, ◌+◌, ◌*◌, ◌≤◌, ◌⊎◌, ◌↔◌, length, ◌≡◌, ◌==◌, refl, arith, false, List, [], ◌∷◌,
  if◌then◌else◌,
}
use tedium.Common.Outcome.{ok}
use tedium.Registers.Bitfield.{arithmetic}
use tedium.Interrupt.{FramerInterruptStatus, from_slice}
use tedium.Registers.Bitfield.{get_field}
use tedium.Registers.Counters.{bisr_layout}
use tedium.Device.Offsets.{framer_offset}
use tedium.Device.Addressing.{channel_nxxx}
use tedium.Device.Accessors.{access_framer}
use tedium.Firmware.Effect.{Bus, ◌>>=◌, lift, write_fifo, for_each, when_set, read_register}
use tedium.Firmware.Report.{
  report, read_bisr, report_bisr, report_blocks, report_loopback_code, report_hdlc, report_slip,
  report_alarm, report_t1frame, forward,
}
use tedium.Interrupt.Size.{interrupt_bytes_max}
use tedium.Firmware.Report.Snapshot.{keeping, at, snapshot}
use tedium.Firmware.Report.Parsed.{report-snapshot}
use tedium.Firmware.Report.Size.{length-report}
use tedium.Firmware.Report.Buffers.{buffers, length-report-buffers}
use tedium.Firmware.Report.Sound.{IsReport, report-IsReport, report-from_slice}

-- BISR of channel 2 shows a slip, and every register else holds 4.
abbrev chip : Bus (Unit {0})
chip a s = (if a == 0x2b00 then 0x04 else 0x104, s)

report-IsReport_example :
    (bisr : ℕ) × (s_1 : Unit {0}) × (out : List ℕ) × (s_2 : Unit {0}) × (read_bisr arithmetic chip 2
        false tt
      ≡ ok (bisr, [], s_1))
    × (report arithmetic chip 2 false tt ≡ ok (tt, out, s_2))
    × IsReport arithmetic 2 bisr out
report-IsReport_example = report-IsReport (Unit {0}) arithmetic chip 2 (omega arith) false tt

report-chip : report arithmetic chip 2 false tt ≡ ok (tt, 2 ∷ 4 ∷ 4 ∷ [], tt)
unfolding report ◌>>=◌ read_bisr read_register lift access_framer channel_nxxx framer_offset
    report_bisr report_blocks when_set report_loopback_code report_hdlc report_slip report_alarm
    report_t1frame forward write_fifo for_each get_field bisr_layout
report-chip = refl

report-from_slice_example :
    (status : FramerInterruptStatus) × (status.channel_index ≡ 2)
    × (from_slice arithmetic (2 ∷ 4 ∷ 4 ∷ []) ≡ ok status)
report-from_slice_example =
    report-from_slice (Unit {0}) arithmetic chip 2 (omega arith) false tt (2 ∷ 4 ∷ 4 ∷ []) tt
      report-chip (λ e. cc e)

length-report_example :
    (out : List ℕ) × (s' : Unit {0}) × (report arithmetic chip 2 false tt ≡ ok (tt, out, s'))
    × ((length out ≡ 0) ⊎ ((2 ≤ length out) × (length out ≤ 417)))
length-report_example = length-report (Unit {0}) arithmetic chip 2 (omega arith) false tt

-- Three full buffers.
length-report-buffers_example :
    (out : List ℕ) × (report arithmetic (buffers 127) 2 false 0 ≡ ok (tt, out, 1))
    × (length out ≡ 3 * 127 + 11)
    × ((length out ≤ interrupt_bytes_max) ↔ (127 ≤ 81))
length-report-buffers_example = length-report-buffers arithmetic 127 2 (omega arith) (omega arith)

-- A slip and an alarm on channel 2, and every other register holds 4.
abbrev words : ℕ → ℕ
words a = if a == 0x2b00 then 0x06 else 0x104

report-snapshot_example :
    ((bit_and (at arithmetic words 2 0xb00) 0x6f ≡ 0)
      × (report arithmetic (keeping words) 2 false tt ≡ ok (tt, [], tt)))
    ⊎ ((bit_and (at arithmetic words 2 0xb00) 0x6f ≢ 0)
        × ((out : List ℕ) × (report arithmetic (keeping words) 2 false tt ≡ ok (tt, out, tt))
            × (from_slice arithmetic out ≡ ok (snapshot arithmetic words 2))))
report-snapshot_example = report-snapshot arithmetic words 2 (omega arith)
