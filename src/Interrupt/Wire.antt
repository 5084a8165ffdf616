-- ===== src/Interrupt/Wire.antt =====
-- The format of an interrupt report, independent of both programs: what is on the wire for a
-- status, and which statuses can be sent.
use tedium.Common.{
  ℕ, ◌+◌, ◌*◌, ◌<◌, ◌≡◌, false, Option, none, some, List, [], ◌∷◌, ◌++◌, length, ◌==◌, All,
}
use tedium.Registers.Bitfield.{Bitfield, get_field}
use tedium.Registers.Framing.{rdlbcr_layout}
use tedium.Registers.Counters.{bisr_layout, fisr_layout}
use tedium.Interrupt.{
  LoopbackCodeStatus, HdlcControllerStatus, HdlcStatus, SlipStatus, AlarmStatus,
  ReceiveSignalingStatus, T1FrameStatus, FramerInterruptStatus,
}

-- An absent part takes no bytes.
abbrev pub optional : {A : Type 0} → (A → List ℕ) → Option A → List ℕ
optional put none = []
optional put (some a) = put a

-- Two registers of four bits in a byte, the even one above.
unfoldable pub pack : List ℕ → List ℕ
pack (even ∷ odd ∷ rest) = (even * 16 + odd) ∷ pack rest
pack _ = []

unfoldable pub put_loopback_code : LoopbackCodeStatus → List ℕ
put_loopback_code s = s.rlcisrs

unfoldable pub put_controller : HdlcControllerStatus → List ℕ
put_controller c = c.dlsr ∷ c.rdlbcr ∷ (c.data_bytes ++ (c.ss7sr ∷ []))

unfoldable pub put_hdlc : HdlcStatus → List ℕ
put_hdlc s =
    put_controller s.controller_0
    ++ (put_controller s.controller_1 ++ put_controller s.controller_2)

unfoldable pub put_slip : SlipStatus → List ℕ
put_slip s = s.sbisr ∷ []

unfoldable pub put_alarm : AlarmStatus → List ℕ
put_alarm s = s.aeisr ∷ s.exzsr ∷ s.ciasr ∷ []

unfoldable pub put_signaling : ReceiveSignalingStatus → List ℕ
put_signaling s = pack s.rsars

unfoldable pub put_t1frame : T1FrameStatus → List ℕ
put_t1frame s = s.fisr ∷ optional put_signaling s.sig

unfoldable pub encode : FramerInterruptStatus → List ℕ
encode s =
    s.channel_index
    ∷ s.bisr
    ∷ (optional put_loopback_code s.lbcode
        ++ (optional put_hdlc s.hdlc
            ++ (optional put_slip s.slip
                ++ (optional put_alarm s.alarm ++ optional put_t1frame s.t1frame))))

-- A part is there exactly if its flag is set, and then it is well formed.
abbrev pub Flagged : {A : Type 0} → ℕ → (A → Type 0) → Option A → Type 0
Flagged flag P none = flag ≡ 0
Flagged flag P (some a) = ((flag == 0) ≡ false) × P a

abbrev pub IsLoopbackCode : LoopbackCodeStatus → Type 0
IsLoopbackCode s = length s.rlcisrs ≡ 8

abbrev pub IsSignaling : ReceiveSignalingStatus → Type 0
IsSignaling s = (length s.rsars ≡ 24) × All (λ v. v < 16) s.rsars

module _ (bf : Bitfield) where
  -- The byte count register says how many bytes of the message follow.
  abbrev pub IsController : HdlcControllerStatus → Type 0
  IsController c = length c.data_bytes ≡ get_field bf rdlbcr_layout "RDLBC" c.rdlbcr

  abbrev pub IsHdlc : HdlcStatus → Type 0
  IsHdlc s = IsController s.controller_0 × IsController s.controller_1 × IsController s.controller_2

  abbrev pub IsT1Frame : T1FrameStatus → Type 0
  IsT1Frame s = Flagged (get_field bf fisr_layout "SIG" s.fisr) IsSignaling s.sig

  pub record IsStatus (s : FramerInterruptStatus) : Type 0 where
    pub lbcode : Flagged (get_field bf bisr_layout "LBCODE" s.bisr) IsLoopbackCode s.lbcode
    pub hdlc : Flagged (get_field bf bisr_layout "HDLC" s.bisr) IsHdlc s.hdlc
    pub slip : Flagged (get_field bf bisr_layout "SLIP" s.bisr) (λ _. Unit) s.slip
    pub alarm : Flagged (get_field bf bisr_layout "ALARM" s.bisr) (λ _. Unit) s.alarm
    pub t1frame : Flagged (get_field bf bisr_layout "T1FRAME" s.bisr) IsT1Frame s.t1frame
