-- ===== src/Interrupt/Size.antt =====
-- How many bytes a status takes on the wire. INTERRUPT_BYTES_MAX is the size of the buffer that the
-- host reads a report into (tedium/tools/tedium-tool/src/framer/usb.rs).
use tedium.Common.{ℕ, ◌≤◌, Option, none, some, List, [], ◌∷◌, ◌++◌, length, arith, length-append}
use tedium.Registers.Bitfield.{Bitfield, get_field}
use tedium.Registers.Framing.{rdlbcr_layout}
use tedium.Interrupt.{
  HdlcControllerStatus, HdlcStatus, ReceiveSignalingStatus, T1FrameStatus, FramerInterruptStatus,
}
use tedium.Interrupt.Wire.{
  optional, put_loopback_code, put_controller, put_hdlc, put_slip, put_alarm, put_signaling,
  put_t1frame, encode, Flagged, IsLoopbackCode, IsSignaling, IsController, IsHdlc, IsT1Frame,
  IsStatus,
}
use tedium.Interrupt.RoundTrip.{length-pack}

abbrev pub interrupt_bytes_max : ℕ
interrupt_bytes_max = 256

-- The bytes of an optional part.
length-optional :
    {A : Type 0} (flag : ℕ) (put : A → List ℕ) (P : A → Type 0) (n : ℕ) (o : Option A)
    → ((a : A) → P a → length (put a) ≤ n)
    → Flagged flag P o
    → length (optional put o) ≤ n
length-optional flag put P n none h f = omega arith
length-optional flag put P n (some a) h f = h a f.1

module _ (bf : Bitfield) where
  length-controller :
      (c : HdlcControllerStatus) → IsController bf c → length (put_controller c) ≤ 130
  unfolding put_controller get_field rdlbcr_layout
  length-controller c h =
      omega (arith, length-append c.data_bytes (c.ss7sr ∷ []), h, bf.get_lem 0 7 c.rdlbcr)

  length-hdlc : (s : HdlcStatus) → IsHdlc bf s → length (put_hdlc s) ≤ 390
  unfolding put_hdlc
  length-hdlc s (h_0, h_1, h_2) =
      let c_0 = put_controller s.controller_0 in
      let c_1 = put_controller s.controller_1 in
      let c_2 = put_controller s.controller_2 in
      omega (
        arith,
        length-append c_0 (c_1 ++ c_2),
        length-append c_1 c_2,
        length-controller s.controller_0 h_0,
        length-controller s.controller_1 h_1,
        length-controller s.controller_2 h_2,
      )

  length-signaling : (s : ReceiveSignalingStatus) → IsSignaling s → length (put_signaling s) ≤ 12
  unfolding put_signaling
  length-signaling s (l, _) = omega (arith, length-pack 12 s.rsars l)

  length-t1frame : (s : T1FrameStatus) → IsT1Frame bf s → length (put_t1frame s) ≤ 13
  unfolding put_t1frame
  length-t1frame s h =
      omega (arith, length-optional _ put_signaling IsSignaling 12 s.sig length-signaling h)

  -- A report takes at least its two leading bytes and at most 417 bytes.
  pub length-encode :
      (s : FramerInterruptStatus)
      → IsStatus bf s
      → (2 ≤ length (encode s)) × (length (encode s) ≤ 417)
  unfolding encode put_loopback_code put_slip put_alarm
  length-encode s h =
      let lbcode = optional put_loopback_code s.lbcode in
      let hdlc = optional put_hdlc s.hdlc in
      let slip = optional put_slip s.slip in
      let alarm = optional put_alarm s.alarm in
      let t1frame = optional put_t1frame s.t1frame in
      omega (
        arith,
        length-append lbcode (hdlc ++ (slip ++ (alarm ++ t1frame))),
        length-append hdlc (slip ++ (alarm ++ t1frame)),
        length-append slip (alarm ++ t1frame),
        length-append alarm t1frame,
        length-optional _ put_loopback_code IsLoopbackCode 8 s.lbcode (λ a p. omega (arith, p))
            h.lbcode,
        length-optional _ put_hdlc (IsHdlc bf) 390 s.hdlc length-hdlc h.hdlc,
        length-optional _ put_slip (λ _. Unit {0}) 1 s.slip (λ a p. omega arith) h.slip,
        length-optional _ put_alarm (λ _. Unit {0}) 3 s.alarm (λ a p. omega arith) h.alarm,
        length-optional _ put_t1frame (IsT1Frame bf) 13 s.t1frame length-t1frame h.t1frame,
      )
