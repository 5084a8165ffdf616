-- ===== src/Firmware/Report.antt =====
-- The report of a channel's interrupts to the host: the body of the main loop of
-- tedium-soc/src/main.rs from the read of BISR to the transmission.
pub mod Steps
pub mod Blocks
pub mod Sound
pub mod Size
pub mod Buffers
pub mod Snapshot
pub mod Kept
pub mod Parts
pub mod Parsed
mod Tests
use tedium.Common.{
  ℕ, zero, suc, ◌+◌, ◌*◌, ◌^◌, ◌<◌, ◌≡◌, ◌==◌, Bool, true, false, List, [], ◌∷◌, u8, bit_and,
  bit_or, range, if◌then◌else◌,
}
use Prim.Native.String.{String}
use tedium.Common.Outcome.{Outcome, ok, panic, unreachable}
use tedium.Registers.Bitfield.{Bitfield, get_field, with_field}
use tedium.Registers.Framing.{rdlbcr_layout}
use tedium.Registers.Counters.{bisr_layout, fisr_layout}
use tedium.Device.Offsets.{framer_offset}
use tedium.Device.Offsets
use tedium.Device.Accessors.{access_framer}
use tedium.Device.Accessors
use tedium.Firmware.Effect.{
  Effect, Bus, ◌>>=◌, ◌>>◌, pure, lift, write_fifo, for_each, when_set, read_register,
}

-- `0, 2, ..` of `step_by(2)`.
pub evens : (start count : ℕ) → List ℕ
evens start zero = []
evens start (suc count) = start ∷ evens (suc (suc start)) count

-- `match rdlbcr.RBUFPTR()`.
unfoldable pub lapdbcr_of : ℕ → ℕ → Outcome ℕ
lapdbcr_of channel rbufptr =
    if rbufptr == 0
    then Accessors.lapdbcr0 channel 0
    else if rbufptr == 1
    then Accessors.lapdbcr1 channel 0
    else panic unreachable

module _ {S : Type 0} (bus : Bus S) where
  -- `write_fifo(register.read().unwrap().into())`.
  unfoldable pub forward : Outcome ℕ → Effect S (Unit {0})
  forward address = do v ← read_register bus address; write_fifo v

module _ {S : Type 0} (bus : Bus S) (channel : ℕ) where
  unfoldable pub report_loopback_code : Effect S (Unit {0})
  report_loopback_code = for_each (range 0 8) (λ i. forward bus (Accessors.rlcisr_x channel i))

  unfoldable pub report_slip : Effect S (Unit {0})
  report_slip = forward bus (access_framer channel (framer_offset Offsets.sbisr))

  unfoldable pub report_alarm : Effect S (Unit {0})
  report_alarm = do
    forward bus (access_framer channel (framer_offset Offsets.aeisr))
    forward bus (access_framer channel (framer_offset Offsets.exzsr))
    forward bus (access_framer channel (framer_offset Offsets.ciasr))

  unfoldable pub report_signaling : ℕ → Effect S (Unit {0})
  report_signaling n = do
    even ← read_register bus (Accessors.rsar_x channel n)
    odd ← read_register bus (Accessors.rsar_x channel (n + 1))
    write_fifo (bit_or (u8 (even * 2 ^ 4)) (bit_and odd 0xf))

module _ {S : Type 0} (bf : Bitfield) (bus : Bus S) (channel : ℕ) where
  unfoldable pub report_controller : ℕ → Effect S (Unit {0})
  report_controller hdlc_index = do
    forward bus (Accessors.dlsr channel hdlc_index)
    rdlbcr ← read_register bus (Accessors.rdlbcr channel hdlc_index)
    write_fifo rdlbcr
    lapdbcr ← lift (lapdbcr_of channel (get_field bf rdlbcr_layout "RBUFPTR" rdlbcr))
    for_each (range 0 (get_field bf rdlbcr_layout "RDLBC" rdlbcr)) (λ _. forward bus (ok lapdbcr))
    forward bus (Accessors.ss7sr channel hdlc_index)

  unfoldable pub report_hdlc : Effect S (Unit {0})
  report_hdlc = for_each (range 0 3) report_controller

  unfoldable pub report_t1frame : Effect S (Unit {0})
  report_t1frame = do
    fisr ← read_register bus (access_framer channel (framer_offset Offsets.fisr))
    write_fifo fisr
    when_set (get_field bf fisr_layout "SIG" fisr)
        (for_each (evens 0 12) (report_signaling bus channel))

  unfoldable pub report_blocks : ℕ → Effect S (Unit {0})
  report_blocks bisr = do
    when_set (get_field bf bisr_layout "LBCODE" bisr) (report_loopback_code bus channel)
    when_set (get_field bf bisr_layout "HDLC" bisr) report_hdlc
    when_set (get_field bf bisr_layout "SLIP" bisr) (report_slip bus channel)
    when_set (get_field bf bisr_layout "ALARM" bisr) (report_alarm bus channel)
    when_set (get_field bf bisr_layout "T1FRAME" bisr) report_t1frame

  -- `BISR::new()` with all interrupts that are reported.
  unfoldable pub resync_bisr : ℕ
  resync_bisr =
      let with_1 = λ (name : String) (byte : ℕ). with_field bf bisr_layout name 1 byte in
      with_1 "T1FRAME" (with_1 "ALARM" (with_1 "SLIP" (with_1 "HDLC" (with_1 "LBCODE" 0))))

  unfoldable pub read_bisr : Bool → Effect S ℕ
  read_bisr resync =
      if resync
      then pure resync_bisr
      else read_register bus (access_framer channel (framer_offset Offsets.bisr))

  -- `if bisr_u8 & 0b01101111u8 != 0 { … }`.
  unfoldable pub report_bisr : ℕ → Effect S (Unit {0})
  report_bisr bisr =
      if bit_and bisr 0b01101111 == 0
      then pure tt
      else write_fifo (u8 channel) >> (write_fifo bisr >> report_blocks bisr)

  unfoldable pub report : Bool → Effect S (Unit {0})
  report resync = read_bisr resync >>= report_bisr
