-- ===== src/Interrupt.antt =====
-- The interrupt report as the host reads it (tedium/tools/tedium-tool/src/framer/interrupt.rs).
-- A reader is the list of the bytes that are left. `Read::read` of a `Cursor` takes what there
-- is and never fails, so the `io::Result` is always `Ok` and is left out; a buffer that it does
-- not fill keeps its zeros.
pub mod Wire
pub mod RoundTrip
pub mod Size
mod Tests
use tedium.Common.{
  ℕ, zero, suc, ◌+◌, ◌-◌, ◌*◌, ◌/◌, ◌%◌, Bool, Option, none, some, List, [], ◌∷◌, ◌++◌, length,
  take, drop, replicate, ◌==◌, ◌^◌, bit_and, if◌then◌else◌, get_or,
}
use tedium.Common.Outcome.{Outcome, ok, ◌>>=◌, ◌>>◌, assert}
use tedium.Registers.Bitfield.{Bitfield, get_field}
use Prim.Native.String.{String}
use tedium.Registers.Framing.{rdlbcr_layout}
use tedium.Registers.Counters.{bisr_layout, fisr_layout}

pub record LoopbackCodeStatus : Type 0 where
  pub rlcisrs : List ℕ

pub record HdlcControllerStatus : Type 0 where
  pub dlsr : ℕ
  pub rdlbcr : ℕ
  pub data_bytes : List ℕ
  pub ss7sr : ℕ

pub record HdlcStatus : Type 0 where
  pub controller_0 : HdlcControllerStatus
  pub controller_1 : HdlcControllerStatus
  pub controller_2 : HdlcControllerStatus

pub record SlipStatus : Type 0 where
  pub sbisr : ℕ

pub record AlarmStatus : Type 0 where
  pub aeisr : ℕ
  pub exzsr : ℕ
  pub ciasr : ℕ

pub record ReceiveSignalingStatus : Type 0 where
  pub rsars : List ℕ

pub record T1FrameStatus : Type 0 where
  pub fisr : ℕ
  pub sig : Option ReceiveSignalingStatus

pub record FramerInterruptStatus : Type 0 where
  pub channel_index : ℕ
  pub bisr : ℕ
  pub lbcode : Option LoopbackCodeStatus
  pub hdlc : Option HdlcStatus
  pub slip : Option SlipStatus
  pub alarm : Option AlarmStatus
  pub t1frame : Option T1FrameStatus

abbrev pub Reader : Type 0 → Type 0
Reader A = List ℕ → A × List ℕ

-- `let mut buf = [0u8; n]; r.read(&mut buf)?`.
pub read : ℕ → Reader (List ℕ)
read n bytes = (take n bytes ++ replicate (n - length bytes) 0, drop n bytes)

pub read_byte : Reader ℕ
unfolding read
read_byte bytes = let (buf, rest) = read 1 bytes in (get_or buf 0 0, rest)

-- `if flag != 0 { Some(from_read(r)?) } else { None }`.
pub when : {A : Type 0} → ℕ → Reader A → Reader (Option A)
when flag from_read r =
    let (a, rest) = from_read r in if flag == 0 then (none, r) else (some a, rest)

pub read_loopback_code : Reader LoopbackCodeStatus
read_loopback_code r = let (rlcisrs, r') = read 8 r in (record { rlcisrs = rlcisrs }, r')

pub read_slip : Reader SlipStatus
read_slip r = let (sbisr, r') = read_byte r in (record { sbisr = sbisr }, r')

pub read_alarm : Reader AlarmStatus
read_alarm r =
    let (buffer, r') = read 3 r in
    (record { aeisr = get_or buffer 0 0; exzsr = get_or buffer 1 0; ciasr = get_or buffer 2 0 }, r')

-- The two registers of each byte, in the order of the array `rsars`.
pub unpack : List ℕ → List ℕ
unpack [] = []
unpack (v ∷ vs) = v / 2 ^ 4 ∷ bit_and v 15 ∷ unpack vs

pub read_signaling : Reader ReceiveSignalingStatus
unfolding unpack
read_signaling r = let (buffer, r') = read 12 r in (record { rsars = unpack buffer }, r')

module _ (bf : Bitfield) where
  pub read_controller : Reader HdlcControllerStatus
  read_controller r =
      let (dlsr, r) = read_byte r in
      let (rdlbcr, r) = read_byte r in
      let (data_bytes, r) = read (get_field bf rdlbcr_layout "RDLBC" rdlbcr) r in
      let (ss7sr, r) = read_byte r in
      (record { dlsr = dlsr; rdlbcr = rdlbcr; data_bytes = data_bytes; ss7sr = ss7sr }, r)

  pub read_hdlc : Reader HdlcStatus
  read_hdlc r =
      let (c_0, r) = read_controller r in
      let (c_1, r) = read_controller r in
      let (c_2, r) = read_controller r in
      (record { controller_0 = c_0; controller_1 = c_1; controller_2 = c_2 }, r)

  pub read_t1frame : Reader T1FrameStatus
  read_t1frame r =
      let (fisr, r) = read_byte r in
      let (sig, r) = when (get_field bf fisr_layout "SIG" fisr) read_signaling r in
      (record { fisr = fisr; sig = sig }, r)

  pub from_read : Reader FramerInterruptStatus
  from_read r =
      let (channel_index, r) = read_byte r in
      let (bisr, r) = read_byte r in
      let flag = λ (name : String). get_field bf bisr_layout name bisr in
      let (lbcode, r) = when (flag "LBCODE") read_loopback_code r in
      let (hdlc, r) = when (flag "HDLC") read_hdlc r in
      let (slip, r) = when (flag "SLIP") read_slip r in
      let (alarm, r) = when (flag "ALARM") read_alarm r in
      let (t1frame, r) = when (flag "T1FRAME") read_t1frame r in
      (
        record {
          channel_index = channel_index;
          bisr = bisr;
          lbcode = lbcode;
          hdlc = hdlc;
          slip = slip;
          alarm = alarm;
          t1frame = t1frame;
        },
        r,
      )

  -- `assert_eq!(b.len() as u64, r.position())` holds if no byte is left.
  pub from_slice : List ℕ → Outcome FramerInterruptStatus
  from_slice b = do
    let (result, rest) = from_read b
    assert (length b == length b - length rest)
    ok result
