-- ===== src/Firmware/Service.antt =====
-- The service of host requests in the main loop of the firmware (tedium-soc/src/main.rs), over the
-- peripherals that are a parameter: what their registers answer, and what they become by a write.
pub mod Answers
pub mod Warnings
pub mod Sound
mod Tests
use tedium.Common.{ℕ, Bool, true, false, not, ◌&&◌, ◌==◌, List, [], ◌∷◌, Option, none, some, u8}
use tedium.Common.{if◌then◌else◌}
use tedium.Common.Outcome.{ok}
use Prim.Native.String.{String}
use tedium.Firmware.Effect.{Outputs, ◌>>=◌, ◌>>◌, pure, lift}
use tedium.Firmware.Request
use tedium.Firmware.Request.{
  HostRequestError, wrong_endpoint, short_packet, long_packet, invalid_command, HostRequestCommand,
  HostRequestResult, EndpointOut, parse_host_request,
}
use tedium.Firmware.Uart.{write_hex_u16}

-- What the service does at the peripherals, in order: the writes to them, and the accesses of the
-- chip with what comes of them.
pub data Output : Type 0 where
  -- the debug port
  write_str : String → Output
  write_hex : List ℕ → Output
  -- `usb_in`, the endpoint of the responses
  clear_stall : Output
  write_fifo : ℕ → Output
  transmit : ℕ → Output
  -- `usb_out`, the endpoint of the requests
  set_stall : ℕ → Output
  set_prime : ℕ → Output
  set_enable : ℕ → Output
  -- `device_access`, where `none` and `false` are an error
  chip_read : ℕ → Option ℕ → Output
  chip_write : (address value : ℕ) → Bool → Output

-- The outputs that do not go to the endpoint of the requests.
abbrev pub IsElsewhere : Output → Type 0
IsElsewhere (set_stall v) = ⊥
IsElsewhere (set_prime v) = ⊥
IsElsewhere (set_enable v) = ⊥
IsElsewhere _ = Unit

pub record Board (S : Type 0) : Type 1 where
  pub usb_out : EndpointOut S
  -- registers 4 and 1 of `usb_out`
  pub get_enable : S → ℕ
  pub get_data_ep : S → ℕ
  -- of `usb_in`
  pub is_stalled : S → Bool
  pub is_idle : S → Bool
  pub is_fifo_empty : S → Bool
  -- the chip
  pub register_read : ℕ → S → Option ℕ × S
  pub register_write : ℕ → ℕ → S → Bool × S
  pub perform : Output → S → S
  -- the peripherals are separate
  pub perform-Holds :
      (o : Output) (s : S) (bytes : List ℕ)
      → IsElsewhere o
      → usb_out.Holds s bytes
      → usb_out.Holds (perform o s) bytes

abbrev pub framer_control : ℕ
framer_control = 3

unfoldable pub error_str : HostRequestError → String
error_str invalid_command = "invalid"
error_str short_packet = "short"
error_str long_packet = "long"
error_str wrong_endpoint = "endpoint"

module _ {S : Type 0} (board : Board S) where
  open board use {usb_out, perform}

  abbrev pub Serving : Type 0 → Type 0
  Serving A = Outputs Output S A

  unfoldable pub emit : Output → Serving (Unit {0})
  emit o s = ok (tt, o ∷ [], perform o s)

  unfoldable pub ask : {A : Type 0} → (S → A) → Serving A
  ask register s = ok (register s, [], s)

  unfoldable pub access : {A : Type 0} → (S → A × S) → Serving A
  access m s = ok ((m s).0, [], (m s).1)

  -- `device_access.read` and `device_access.write`.
  unfoldable pub read_chip : ℕ → Serving (Option ℕ)
  read_chip address s =
      let (result, s') = board.register_read address s in
      ok (result, chip_read address result ∷ [], s')

  unfoldable pub write_chip : (address value : ℕ) → Serving Bool
  write_chip address value s =
      let (result, s') = board.register_write address value s in
      ok (result, chip_write address value result ∷ [], s')

  -- The checks that the response endpoint is ready.
  unfoldable pub prepare : Serving (Unit {0})
  prepare = do
    stalled ← ask board.is_stalled
    if stalled then (emit clear_stall >> emit (write_str "IN: stall\n")) else pure tt
    idle ← ask board.is_idle
    if idle then pure tt else emit (write_str "IN: !idle\n")
    empty ← ask board.is_fifo_empty
    if empty then pure tt else emit (write_str "IN: !empty\n")

  -- The message of an access that failed.
  unfoldable pub report_failure : String → ℕ → String → Serving (Unit {0})
  report_failure before address after = do
    emit (write_str before)
    digits ← lift (write_hex_u16 address)
    emit (write_hex digits)
    emit (write_str after)

  abbrev pub respond_read : ℕ → Option ℕ → Serving (Unit {0})
  respond_read address (some value) = emit (write_fifo (u8 value)) >> emit (transmit framer_control)
  respond_read address none = report_failure "rr " address " failed\n"

  abbrev pub respond_write : ℕ → Bool → Serving (Unit {0})
  respond_write address true = emit (transmit framer_control)
  respond_write address false = report_failure "wr " address " write failed\n"

  -- The `match` on the request.
  unfoldable pub answer : HostRequestResult HostRequestCommand → Serving (Unit {0})
  answer (Request.ok (Request.register_read address)) = read_chip address >>= respond_read address
  answer (Request.ok (Request.register_write address value)) =
      write_chip address value >>= respond_write address
  answer (Request.err e) = emit (write_str (error_str e))

  unfoldable pub request : Serving (Unit {0})
  request = access (parse_host_request usb_out) >>= answer

  unfoldable pub rearm : Serving (Unit {0})
  rearm = emit (set_stall 0) >> (emit (set_prime 1) >> emit (set_enable 1))

  -- The check of `usb_out`.
  unfoldable pub serve : Serving (Unit {0})
  serve = do
    enable ← ask board.get_enable
    have ← ask usb_out.have
    endpoint ← ask board.get_data_ep
    let pending = not (u8 have == 0) && (u8 endpoint == framer_control)
    let handle = if pending then (prepare >> request) else pure tt
    if u8 enable == 0 then (handle >> rearm) else pure tt
