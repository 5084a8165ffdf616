-- ===== src/Registers/Values/Timeslots.antt =====
-- The enumerations of field values of the timeslots (xrt86vx38-pac/src/register.rs).
use tedium.Registers.Values.Derive.{Specifier}

pub data TransmitLapdSource : Type 0 where
  lapd_controller1 lapd_controller2 tsdlsr_txde lapd_controller3 : TransmitLapdSource

instance abbrev pub transmit_lapd_source : Specifier TransmitLapdSource
transmit_lapd_source = record {
  width = 2;
  discriminant = λ v. elim v [
    | TransmitLapdSource.lapd_controller1 ↦ 0b00
    | TransmitLapdSource.lapd_controller2 ↦ 0b01
    | TransmitLapdSource.tsdlsr_txde ↦ 0b10
    | TransmitLapdSource.lapd_controller3 ↦ 0b11
  ];
}

pub data ZeroCodeSuppression : Type 0 where
  none att_bit7_stuffing gte dds : ZeroCodeSuppression

instance abbrev pub zero_code_suppression : Specifier ZeroCodeSuppression
zero_code_suppression = record {
  width = 2;
  discriminant = λ v. elim v [
    | ZeroCodeSuppression.none ↦ 0b00
    | ZeroCodeSuppression.att_bit7_stuffing ↦ 0b01
    | ZeroCodeSuppression.gte ↦ 0b10
    | ZeroCodeSuppression.dds ↦ 0b11
  ];
}

pub data ChannelConditioning : Type 0 where
  unchanged invert_all invert_even invert_odd pucr busy vacant busy_with_slot_number moof
        a_law_milliwatt u_law_milliwatt invert_msb invert_all_but_msb prbs_or_qrts de_time_slot :
      ChannelConditioning

instance abbrev pub channel_conditioning : Specifier ChannelConditioning
channel_conditioning = record {
  width = 4;
  discriminant = λ v. elim v [
    | ChannelConditioning.unchanged ↦ 0x0
    | ChannelConditioning.invert_all ↦ 0x1
    | ChannelConditioning.invert_even ↦ 0x2
    | ChannelConditioning.invert_odd ↦ 0x3
    | ChannelConditioning.pucr ↦ 0x4
    | ChannelConditioning.busy ↦ 0x5
    | ChannelConditioning.vacant ↦ 0x6
    | ChannelConditioning.busy_with_slot_number ↦ 0x7
    | ChannelConditioning.moof ↦ 0x8
    | ChannelConditioning.a_law_milliwatt ↦ 0x9
    | ChannelConditioning.u_law_milliwatt ↦ 0xa
    | ChannelConditioning.invert_msb ↦ 0xb
    | ChannelConditioning.invert_all_but_msb ↦ 0xc
    | ChannelConditioning.prbs_or_qrts ↦ 0xd
    | ChannelConditioning.de_time_slot ↦ 0xf
  ];
}

pub data ChannelSignalingSource : Type 0 where
  pcm_data tscr tx_sig : ChannelSignalingSource

instance abbrev pub channel_signaling_source : Specifier ChannelSignalingSource
channel_signaling_source = record {
  width = 2;
  discriminant = λ v. elim v [
    | ChannelSignalingSource.pcm_data ↦ 0b00
    | ChannelSignalingSource.tscr ↦ 0b01
    | ChannelSignalingSource.tx_sig ↦ 0b10
  ];
}

pub data ReceiveLapdSource : Type 0 where
  lapd_controller1 lapd_controller2 rsdlsr_rxde lapd_controller3 : ReceiveLapdSource

instance abbrev pub receive_lapd_source : Specifier ReceiveLapdSource
receive_lapd_source = record {
  width = 2;
  discriminant = λ v. elim v [
    | ReceiveLapdSource.lapd_controller1 ↦ 0b00
    | ReceiveLapdSource.lapd_controller2 ↦ 0b01
    | ReceiveLapdSource.rsdlsr_rxde ↦ 0b10
    | ReceiveLapdSource.lapd_controller3 ↦ 0b11
  ];
}

pub data ReceiveSignalingConditioning : Type 0 where
  all_ones sixteen_code_abcd four_code_ab two_code_a : ReceiveSignalingConditioning

instance abbrev pub receive_signaling_conditioning : Specifier ReceiveSignalingConditioning
receive_signaling_conditioning = record {
  width = 2;
  discriminant = λ v. elim v [
    | ReceiveSignalingConditioning.all_ones ↦ 0b00
    | ReceiveSignalingConditioning.sixteen_code_abcd ↦ 0b01
    | ReceiveSignalingConditioning.four_code_ab ↦ 0b10
    | ReceiveSignalingConditioning.two_code_a ↦ 0b11
  ];
}

pub data ReceiveSignalingExtraction : Type 0 where
  none sixteen_code_abcd four_code_ab two_code_a : ReceiveSignalingExtraction

instance abbrev pub receive_signaling_extraction : Specifier ReceiveSignalingExtraction
receive_signaling_extraction = record {
  width = 2;
  discriminant = λ v. elim v [
    | ReceiveSignalingExtraction.none ↦ 0b00
    | ReceiveSignalingExtraction.sixteen_code_abcd ↦ 0b01
    | ReceiveSignalingExtraction.four_code_ab ↦ 0b10
    | ReceiveSignalingExtraction.two_code_a ↦ 0b11
  ];
}
