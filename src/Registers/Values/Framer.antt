-- ===== src/Registers/Values/Framer.antt =====
-- The enumerations of field values of the framer block (xrt86vx38-pac/src/register.rs).
use tedium.Registers.Values.Derive.{Specifier}

pub data ClockSource : Type 0 where
  loop external internal : ClockSource

instance abbrev pub clock_source : Specifier ClockSource
clock_source = record {
  width = 2;
  discriminant = λ v. elim v [
    | ClockSource.loop ↦ 0b00
    | ClockSource.external ↦ 0b01
    | ClockSource.internal ↦ 0b10
  ];
}

pub data FramerLoopback : Type 0 where
  no_loopback local far_end_remote_line payload : FramerLoopback

instance abbrev pub framer_loopback : Specifier FramerLoopback
framer_loopback = record {
  width = 2;
  discriminant = λ v. elim v [
    | FramerLoopback.no_loopback ↦ 0b00
    | FramerLoopback.local ↦ 0b01
    | FramerLoopback.far_end_remote_line ↦ 0b10
    | FramerLoopback.payload ↦ 0b11
  ];
}

pub data T1Framing : Type 0 where
  extended_super_frame super_frame n t1dm slc96 : T1Framing

instance abbrev pub t1_framing : Specifier T1Framing
t1_framing = record {
  width = 3;
  discriminant = λ v. elim v [
    | T1Framing.extended_super_frame ↦ 0b000
    | T1Framing.super_frame ↦ 0b101
    | T1Framing.n ↦ 0b110
    | T1Framing.t1dm ↦ 0b111
    | T1Framing.slc96 ↦ 0b100
  ];
}

pub data TransmitAisPattern : Type 0 where
  disable unframed framed : TransmitAisPattern

instance abbrev pub transmit_ais_pattern : Specifier TransmitAisPattern
transmit_ais_pattern = record {
  width = 2;
  discriminant = λ v. elim v [
    | TransmitAisPattern.disable ↦ 0b00
    | TransmitAisPattern.unframed ↦ 0b01
    | TransmitAisPattern.framed ↦ 0b11
  ];
}

pub data AisDetection : Type 0 where
  disabled unframed_and_framed framed : AisDetection

instance abbrev pub ais_detection : Specifier AisDetection
ais_detection = record {
  width = 2;
  discriminant = λ v. elim v [
    | AisDetection.disabled ↦ 0b00
    | AisDetection.unframed_and_framed ↦ 0b01
    | AisDetection.framed ↦ 0b11
  ];
}

pub data ReceiveSlipBuffer : Type 0 where
  bypass slip_buffer fifo : ReceiveSlipBuffer

instance abbrev pub receive_slip_buffer : Specifier ReceiveSlipBuffer
receive_slip_buffer = record {
  width = 2;
  discriminant = λ v. elim v [
    | ReceiveSlipBuffer.bypass ↦ 0b00
    | ReceiveSlipBuffer.slip_buffer ↦ 0b01
    | ReceiveSlipBuffer.fifo ↦ 0b10
  ];
}

pub data AutomaticPerformanceReport : Type 0 where
  no_report once every_second : AutomaticPerformanceReport

instance abbrev pub automatic_performance_report : Specifier AutomaticPerformanceReport
automatic_performance_report = record {
  width = 2;
  discriminant = λ v. elim v [
    | AutomaticPerformanceReport.no_report ↦ 0b00
    | AutomaticPerformanceReport.once ↦ 0b01
    | AutomaticPerformanceReport.every_second ↦ 0b10
  ];
}

pub data BitErrorInsertionRate : Type 0 where
  disable one_of_one_thousand one_of_one_million : BitErrorInsertionRate

instance abbrev pub bit_error_insertion_rate : Specifier BitErrorInsertionRate
bit_error_insertion_rate = record {
  width = 2;
  discriminant = λ v. elim v [
    | BitErrorInsertionRate.disable ↦ 0b00
    | BitErrorInsertionRate.one_of_one_thousand ↦ 0b01
    | BitErrorInsertionRate.one_of_one_million ↦ 0b10
  ];
}

pub data BertPattern : Type 0 where
  prbs_x20_x3_1 qrss_x20_x17_1 all_ones all_zeros three_in24 one_in8 fifty5_octet daly
        prbs_x20_x17_1 :
      BertPattern

instance abbrev pub bert_pattern : Specifier BertPattern
bert_pattern = record {
  width = 4;
  discriminant = λ v. elim v [
    | BertPattern.prbs_x20_x3_1 ↦ 0b0010
    | BertPattern.qrss_x20_x17_1 ↦ 0b0011
    | BertPattern.all_ones ↦ 0b0100
    | BertPattern.all_zeros ↦ 0b0101
    | BertPattern.three_in24 ↦ 0b0110
    | BertPattern.one_in8 ↦ 0b0111
    | BertPattern.fifty5_octet ↦ 0b1000
    | BertPattern.daly ↦ 0b1001
    | BertPattern.prbs_x20_x17_1 ↦ 0b1010
  ];
}
