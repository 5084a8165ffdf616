-- ===== src/Firmware/Request.antt =====
-- The requests that the host sends to the control endpoint, and how the firmware serves them
-- (`parse_host_request` and the service of `usb_out` in the main loop of tedium-soc/src/main.rs).
-- The endpoint's FIFO is hardware: its state, and what its registers 7 (`have`) and 0 (`data`)
-- answer, are a parameter.
pub mod Parse
pub mod Fifo
mod Tests
use tedium.Common.{
  ℕ, zero, suc, ◌+◌, ◌*◌, ◌^◌, ◌≡◌, ◌≢◌, ◌==◌, Bool, true, false, List, [], ◌∷◌, u8, bit_or,
  if◌then◌else◌,
}

pub data HostRequestError : Type 0 where
  wrong_endpoint short_packet long_packet invalid_command : HostRequestError

pub data HostRequestCommand : Type 0 where
  register_read : ℕ → HostRequestCommand
  register_write : ℕ → ℕ → HostRequestCommand

-- `core::result::Result`.
pub data HostRequestResult (A : Type 0) : Type 0 where
  ok : A → HostRequestResult A
  err : HostRequestError → HostRequestResult A

pub record EndpointOut (S : Type 0) : Type 1 where
  -- the word in register 7, and the word in register 0 with the endpoint after its read
  pub have : S → ℕ
  pub take_data : S → ℕ × S
  -- the endpoint holds these bytes of a packet, in the order of their arrival
  pub Holds : S → List ℕ → Type 0
  pub have-empty : (s : S) → Holds s [] → u8 (have s) ≡ 0
  pub have-more : (s : S) (b : ℕ) (bs : List ℕ) → Holds s (b ∷ bs) → u8 (have s) ≢ 0
  pub take_data-first :
      (s : S) (b : ℕ) (bs : List ℕ)
      → Holds s (b ∷ bs)
      → (u8 (take_data s).0 ≡ b) × Holds (take_data s).1 bs

-- A reader may fail; the endpoint keeps what it has done.
abbrev pub Reader : Type 0 → Type 0 → Type 0
Reader S A = S → HostRequestResult A × S

abbrev continue :
    {S A B : Type 0} → HostRequestResult A → S → (A → Reader S B) → HostRequestResult B × S
continue (ok a) s k = k a s
continue (err e) s k = (err e, s)

infixl 5 ◌>>=◌
abbrev pub ◌>>=◌ : {S A B : Type 0} → Reader S A → (A → Reader S B) → Reader S B
(m >>= k) s = continue (m s).0 (m s).1 k

abbrev return : {S A : Type 0} → HostRequestResult A → Reader S A
return r s = (r, s)

module _ {S : Type 0} (ep : EndpointOut S) where
  -- `USBOutReader::read`.
  unfoldable pub read : Reader S ℕ
  read s =
      let (v, s') = ep.take_data s in
      if u8 (ep.have s) == 0 then (err short_packet, s) else (ok (u8 v), s')

  unfoldable pub read_request : Reader S HostRequestCommand
  read_request = do l ← read; h ← read; return (ok (register_read (bit_or (h * 2 ^ 8) l)))

  unfoldable pub write_request : Reader S HostRequestCommand
  write_request = do
    l ← read
    h ← read
    value ← read
    return (ok (register_write (bit_or (h * 2 ^ 8) l) value))

  unfoldable pub parse_host_request : Reader S HostRequestCommand
  unfolding read_request write_request
  parse_host_request = do
    command ← read
    if command == 0x00
        then read_request
        else if command == 0x01
        then write_request
        else return (err invalid_command)
