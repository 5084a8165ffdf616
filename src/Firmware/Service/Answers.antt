-- ===== src/Firmware/Service/Answers.antt =====
-- The answer to a request, as the bytes of its packet say.
use Prim.Native.String.{String}
use tedium.Common.{
  ℕ, ◌^◌, ◌<◌, ◌≡◌, refl, sym, subst, Bool, true, false, List, [], ◌∷◌, Option, none, some, u8,
  arith,
}
use tedium.Firmware.Effect.{Ends, lift, ◌>>=◌}
use tedium.Firmware.Request
use tedium.Firmware.Request.{HostRequestCommand, HostRequestResult, EndpointOut, parse_host_request}
use tedium.Firmware.Request.Parse.{
  decode, Fits, decode-Fits, Holds-bytes, parse_host_request-decode,
}
use tedium.Firmware.Uart.Digits.{IsPrinted, write_hex-IsPrinted}
use tedium.Firmware.Service.{
  Output, write_str, write_hex, write_fifo, transmit, chip_read, chip_write, read_chip, write_chip,
  Board, error_str, Serving, emit, ask, access, report_failure, respond_read, respond_write, answer,
  request,
}

-- The message of a failed access names the address.
abbrev pub Failure : String → ℕ → String → List Output → Type 0
Failure before address after out =
    (cs : List ℕ) × IsPrinted 4 0 address cs
    × (out ≡ write_str before ∷ write_hex cs ∷ write_str after ∷ [])

-- The response to a read is the byte that was read, and that to a write is empty.
abbrev pub ReadResponse : ℕ → Option ℕ → List Output → Type 0
ReadResponse address (some v) out = out ≡ write_fifo (u8 v) ∷ transmit 3 ∷ []
ReadResponse address none out = Failure "rr " address " failed\n" out

abbrev pub WriteResponse : ℕ → Bool → List Output → Type 0
WriteResponse address true out = out ≡ transmit 3 ∷ []
WriteResponse address false out = Failure "wr " address " write failed\n" out

-- What is to be done for a request: one access and the response to it, or one message.
abbrev pub Answers : HostRequestResult HostRequestCommand → List Output → Type 0
Answers (Request.ok (Request.register_read address)) out =
    (o : Option ℕ) × (response : List Output) × (out ≡ chip_read address o ∷ response)
    × ReadResponse address o response
Answers (Request.ok (Request.register_write address value)) out =
    (o : Bool) × (response : List Output) × (out ≡ chip_write address value o ∷ response)
    × WriteResponse address o response
Answers (Request.err e) out = out ≡ write_str (error_str e) ∷ []

module _ {S : Type 0} (board : Board S) where
  open board use {usb_out, perform}

  report_failure-Ends :
      (before after : String) (address : ℕ) (s : S)
      → address < 2 ^ 16
      → Ends
          (report_failure board before address after)
          s
          (λ _ out _. Failure before address after out)
  unfolding report_failure emit lift ◌>>=◌
  report_failure-Ends before after address s h =
      let (_, (cs, e, printed), _) =
        write_hex-IsPrinted 0 address 0 (omega arith) h (omega arith) in
      (
        tt,
        write_str before ∷ write_hex cs ∷ write_str after ∷ [],
        perform (write_str after) (perform (write_hex cs) (perform (write_str before) s)),
        rw e refl,
        (cs, printed, refl),
      )

  respond_read-Ends :
      (address : ℕ) (o : Option ℕ) (s : S)
      → address < 2 ^ 16
      → Ends (respond_read board address o) s (λ _ out _. ReadResponse address o out)
  unfolding emit ◌>>=◌
  respond_read-Ends address (some v) s h = (tt, write_fifo (u8 v) ∷ transmit 3 ∷ [], _, refl, refl)
  respond_read-Ends address none s h = report_failure-Ends "rr " " failed\n" address s h

  respond_write-Ends :
      (address : ℕ) (o : Bool) (s : S)
      → address < 2 ^ 16
      → Ends (respond_write board address o) s (λ _ out _. WriteResponse address o out)
  unfolding emit
  respond_write-Ends address true s h = (tt, transmit 3 ∷ [], _, refl, refl)
  respond_write-Ends address false s h = report_failure-Ends "wr " " write failed\n" address s h

  pub access-Ends :
      {A B : Type 0} (m : S → A × S) (k : A → Serving board B) (s : S)
      (Q : B → List Output → S → Type 0)
      → Ends (k (m s).0) (m s).1 Q
      → Ends (access board m >>= k) s Q
  unfolding access ◌>>=◌
  access-Ends m k s Q (b, out, s', e, q) = (b, out, s', rw e refl, q)

  pub ask-Ends :
      {A B : Type 0} (register : S → A) (k : A → Serving board B) (s : S)
      (Q : B → List Output → S → Type 0)
      → Ends (k (register s)) s Q
      → Ends (ask board register >>= k) s Q
  unfolding ask ◌>>=◌
  ask-Ends register k s Q (b, out, s', e, q) = (b, out, s', rw e refl, q)

  answer-Ends :
      (r : HostRequestResult HostRequestCommand) (s : S)
      → Fits r
      → Ends (answer board r) s (λ _ out _. Answers r out)
  unfolding answer emit read_chip write_chip ◌>>=◌
  answer-Ends (Request.ok (Request.register_read address)) s h =
      let (o, s') = board.register_read address s in
      let (_, out, s'', e, p) = respond_read-Ends address o s' h in
      (tt, chip_read address o ∷ out, s'', rw e refl, (o, out, refl, p))
  answer-Ends (Request.ok (Request.register_write address value)) s h =
      let (o, s') = board.register_write address value s in
      let (_, out, s'', e, p) = respond_write-Ends address o s' h.0 in
      (tt, chip_write address value o ∷ out, s'', rw e refl, (o, out, refl, p))
  answer-Ends (Request.err e) s h = (tt, write_str (error_str e) ∷ [], _, refl, refl)

  pub request-Ends :
      (bytes : List ℕ) (s : S)
      → usb_out.Holds s bytes
      → Ends (request board) s (λ _ out _. Answers (decode bytes) out)
  unfolding request
  request-Ends bytes s h =
      let parsed = parse_host_request usb_out s in
      let e = parse_host_request-decode usb_out s bytes h in
      access-Ends (parse_host_request usb_out) (answer board) s _ (
        subst (λ r. Ends (answer board parsed.0) parsed.1 (λ _ out _. Answers r out)) e
          (answer-Ends parsed.0 parsed.1
            (subst Fits (sym e) (decode-Fits bytes (Holds-bytes usb_out s bytes h)))))
