-- ===== src/Interrupt/RoundTrip.antt =====
-- The host reads back every report that follows the format, to its last byte.
use tedium.Common.{
  ℕ, zero, suc, ◌+◌, ◌-◌, ◌*◌, ◌/◌, ◌%◌, ◌<◌, ◌≡◌, refl, ap, sym, ◌∙◌, Option, none, some, List, [],
  ◌∷◌, ◌++◌, length, replicate, take-length-append, drop-length-append, arith, All, bit_and,
  bit_and-halves, bit_and-zero, ==_iff, length-append,
}
use mathlib.Core.List.{append-nil, append_assoc}
use tedium.Common.Outcome.{ok}
use tedium.Registers.Bitfield.{Bitfield}
use tedium.Interrupt.{
  LoopbackCodeStatus, HdlcControllerStatus, HdlcStatus, SlipStatus, AlarmStatus,
  ReceiveSignalingStatus, T1FrameStatus, FramerInterruptStatus, Reader, read, read_byte, when,
  read_loopback_code, read_slip, read_alarm, unpack, read_signaling, read_controller, read_hdlc,
  read_t1frame, from_read, from_slice,
}
use tedium.Interrupt.Wire.{
  optional, pack, put_loopback_code, put_controller, put_hdlc, put_slip, put_alarm, put_signaling,
  put_t1frame, encode, Flagged, IsLoopbackCode, IsSignaling, IsController, IsHdlc, IsT1Frame,
  IsStatus,
}

-- A reader takes what was put, and leaves the rest.
abbrev Reads : {A : Type 0} → Reader A → (A → List ℕ) → A → Type 0
Reads reader put a = (rest : List ℕ) → reader (put a ++ rest) ≡ (a, rest)

no_padding : (xs rest : List ℕ) → replicate {A = ℕ} (length xs - length (xs ++ rest)) 0 ≡ []
no_padding xs rest =
    let none_left : length xs - length (xs ++ rest) ≡ 0 = omega (arith, length-append xs rest) in
    rw none_left refl

read-append : (n : ℕ) (xs rest : List ℕ) → length xs ≡ n → read n (xs ++ rest) ≡ (xs, rest)
unfolding read
read-append n xs rest e =
    rw (
      ← e,
      take-length-append xs rest,
      no_padding xs rest,
      append-nil xs,
      drop-length-append xs rest,
    )

read_byte-cons : (b : ℕ) (rest : List ℕ) → read_byte (b ∷ rest) ≡ (b, rest)
unfolding read_byte
read_byte-cons b rest = refl

when-optional :
    {A : Type 0} (flag : ℕ) (reader : Reader A) (put : A → List ℕ) (P : A → Type 0) (o : Option A)
    → ((a : A) → P a → Reads reader put a)
    → Flagged flag P o
    → Reads (when flag reader) (optional put) o
unfolding when
when-optional flag reader put P none h f rest = rw f
when-optional flag reader put P (some a) h f rest = rw (f.0, h a f.1 rest)

read_loopback_code-Reads :
    (s : LoopbackCodeStatus) → IsLoopbackCode s → Reads read_loopback_code put_loopback_code s
unfolding read_loopback_code put_loopback_code
read_loopback_code-Reads s h rest = rw (read-append 8 s.rlcisrs rest h)

read_slip-Reads : (s : SlipStatus) → Reads read_slip put_slip s
unfolding read_slip read_byte put_slip
read_slip-Reads s rest = refl

read_alarm-Reads : (s : AlarmStatus) → Reads read_alarm put_alarm s
unfolding read_alarm read put_alarm
read_alarm-Reads s rest = refl

pub low_nibble : (v : ℕ) → bit_and v 15 ≡ v % 16
low_nibble v = omega (
  arith,
  bit_and-halves v 15,
  bit_and-halves (v / 2) 7,
  bit_and-halves (v / 2 / 2) 3,
  bit_and-halves (v / 2 / 2 / 2) 1,
  bit_and-zero (v / 2 / 2 / 2 / 2),
)

pub length-pack : (n : ℕ) (xs : List ℕ) → length xs ≡ n + n → length (pack xs) ≡ n
unfolding pack
length-pack zero [] h = refl
length-pack zero (a ∷ xs) h = absurd (omega arith)
length-pack (suc n) [] h = absurd (omega arith)
length-pack (suc n) (a ∷ []) h = absurd (omega arith)
length-pack (suc n) (a ∷ b ∷ xs) h = omega (arith, length-pack n xs (omega arith))

unpack-pack :
    (n : ℕ) (xs : List ℕ) → length xs ≡ n + n → All (λ v. v < 16) xs → unpack (pack xs) ≡ xs
unfolding pack unpack
unpack-pack zero [] h p = refl
unpack-pack zero (a ∷ xs) h p = absurd (omega arith)
unpack-pack (suc n) [] h p = absurd (omega arith)
unpack-pack (suc n) (a ∷ []) h p = absurd (omega arith)
unpack-pack (suc n) (a ∷ b ∷ xs) h (l_a, (l_b, p)) =
    let even : (a * 16 + b) / 16 ≡ a = omega arith in
    let odd : bit_and (a * 16 + b) 15 ≡ b = omega (arith, low_nibble (a * 16 + b)) in
    rw (even, odd, unpack-pack n xs (omega arith) p)

read_signaling-Reads :
    (s : ReceiveSignalingStatus) → IsSignaling s → Reads read_signaling put_signaling s
unfolding read_signaling put_signaling
read_signaling-Reads s (l, a) rest =
    rw (read-append 12 (pack s.rsars) rest (length-pack 12 s.rsars l), unpack-pack 12 s.rsars l a)

module _ (bf : Bitfield) where
  read_controller-Reads :
      (c : HdlcControllerStatus) → IsController bf c → Reads (read_controller bf) put_controller c
  unfolding read_controller put_controller
  read_controller-Reads c h rest = rw (
    append_assoc c.data_bytes (c.ss7sr ∷ []) rest,
    read_byte-cons c.dlsr _,
    read_byte-cons c.rdlbcr _,
    read-append _ c.data_bytes (c.ss7sr ∷ rest) h,
    read_byte-cons c.ss7sr rest,
  )

  read_hdlc-Reads : (s : HdlcStatus) → IsHdlc bf s → Reads (read_hdlc bf) put_hdlc s
  unfolding read_hdlc put_hdlc
  read_hdlc-Reads s (h_0, h_1, h_2) rest = rw (
    append_assoc (put_controller s.controller_0)
        (put_controller s.controller_1 ++ put_controller s.controller_2) rest,
    append_assoc (put_controller s.controller_1) (put_controller s.controller_2) rest,
    read_controller-Reads s.controller_0 h_0 _,
    read_controller-Reads s.controller_1 h_1 _,
    read_controller-Reads s.controller_2 h_2 rest,
  )

  read_t1frame-Reads : (s : T1FrameStatus) → IsT1Frame bf s → Reads (read_t1frame bf) put_t1frame s
  unfolding read_t1frame read_byte put_t1frame
  read_t1frame-Reads s h rest =
      rw
        (when-optional _ read_signaling put_signaling IsSignaling s.sig read_signaling-Reads h rest)

  from_read-Reads : (s : FramerInterruptStatus) → IsStatus bf s → Reads (from_read bf) encode s
  unfolding from_read encode
  from_read-Reads s h rest =
      let lbcode = optional put_loopback_code s.lbcode in
      let hdlc = optional put_hdlc s.hdlc in
      let slip = optional put_slip s.slip in
      let alarm = optional put_alarm s.alarm in
      let t1frame = optional put_t1frame s.t1frame in
      rw (
        append_assoc lbcode (hdlc ++ (slip ++ (alarm ++ t1frame))) rest,
        append_assoc hdlc (slip ++ (alarm ++ t1frame)) rest,
        append_assoc slip (alarm ++ t1frame) rest,
        append_assoc alarm t1frame rest,
        read_byte-cons s.channel_index _,
        read_byte-cons s.bisr _,
        when-optional _ read_loopback_code put_loopback_code IsLoopbackCode s.lbcode
            read_loopback_code-Reads h.lbcode _,
        when-optional _ (read_hdlc bf) put_hdlc (IsHdlc bf) s.hdlc read_hdlc-Reads h.hdlc _,
        when-optional _ read_slip put_slip (λ _. Unit) s.slip (λ a p. read_slip-Reads a) h.slip _,
        when-optional _ read_alarm put_alarm (λ _. Unit) s.alarm (λ a p. read_alarm-Reads a) h.alarm
            _,
        when-optional _ (read_t1frame bf) put_t1frame (IsT1Frame bf) s.t1frame read_t1frame-Reads
            h.t1frame rest,
      )

  -- For every status whose parts are there exactly as the flags of its BISR and FISR say, with 8
  -- loopback codes, as many HDLC bytes as RDLBCR says and 24 signaling values of 4 bits, the host
  -- parses the bytes of the report to that status: no byte is missing, and none is left over.
  pub from_slice-encode :
      (s : FramerInterruptStatus) → IsStatus bf s → from_slice bf (encode s) ≡ ok s
  unfolding from_slice
  from_slice-encode s h =
      let e = ap (from_read bf) (append-nil (encode s)) in
      rw (sym e ∙ from_read-Reads s h [])
        (ground (arith, ==_iff (length (encode s)) (length (encode s))))
