-- ===== src/Registers/Values/Lines.antt =====
-- The enumerations of field values of the line interface units and the clock (xrt86vx38-pac/src/register.rs).
use tedium.Registers.Values.Derive.{Specifier}

pub data PrbsPattern : Type 0 where
  prbs qrss : PrbsPattern

instance abbrev pub prbs_pattern : Specifier PrbsPattern
prbs_pattern = record {
  width = 1;
  discriminant = λ v. elim v [ PrbsPattern.prbs ↦ 0b0 | PrbsPattern.qrss ↦ 0b1 ];
}

pub data PrbsDestination : Type 0 where
  ttip_tring rpos_rclk : PrbsDestination

instance abbrev pub prbs_destination : Specifier PrbsDestination
prbs_destination = record {
  width = 1;
  discriminant = λ v. elim v [ PrbsDestination.ttip_tring ↦ 0b0 | PrbsDestination.rpos_rclk ↦ 0b1 ];
}

pub data Termination : Type 0 where
  high_impedance internal : Termination

instance abbrev pub termination : Specifier Termination
termination = record {
  width = 1;
  discriminant = λ v. elim v [ Termination.high_impedance ↦ 0b0 | Termination.internal ↦ 0b1 ];
}

pub data TerminationImpedance : Type 0 where
  ohms100 ohms110 ohms75 ohms120 : TerminationImpedance

instance abbrev pub termination_impedance : Specifier TerminationImpedance
termination_impedance = record {
  width = 2;
  discriminant = λ v. elim v [
    | TerminationImpedance.ohms100 ↦ 0b00
    | TerminationImpedance.ohms110 ↦ 0b01
    | TerminationImpedance.ohms75 ↦ 0b10
    | TerminationImpedance.ohms120 ↦ 0b11
  ];
}

pub data TransmitTestPattern : Type 0 where
  none tdqrss taos tluc tldc : TransmitTestPattern

instance abbrev pub transmit_test_pattern : Specifier TransmitTestPattern
transmit_test_pattern = record {
  width = 3;
  discriminant = λ v. elim v [
    | TransmitTestPattern.none ↦ 0b000
    | TransmitTestPattern.tdqrss ↦ 0b100
    | TransmitTestPattern.taos ↦ 0b101
    | TransmitTestPattern.tluc ↦ 0b110
    | TransmitTestPattern.tldc ↦ 0b111
  ];
}

pub data LiuLoopback : Type 0 where
  none dual analog remote digital : LiuLoopback

instance abbrev pub liu_loopback : Specifier LiuLoopback
liu_loopback = record {
  width = 3;
  discriminant = λ v. elim v [
    | LiuLoopback.none ↦ 0b000
    | LiuLoopback.dual ↦ 0b100
    | LiuLoopback.analog ↦ 0b101
    | LiuLoopback.remote ↦ 0b110
    | LiuLoopback.digital ↦ 0b111
  ];
}

pub data NetworkLoopCodeDetection : Type 0 where
  disabled loop_up_detection loop_down_detection automatic_loop_up_detection_and_remote_activation :
      NetworkLoopCodeDetection

instance abbrev pub network_loop_code_detection : Specifier NetworkLoopCodeDetection
network_loop_code_detection = record {
  width = 2;
  discriminant = λ v. elim v [
    | NetworkLoopCodeDetection.disabled ↦ 0b00
    | NetworkLoopCodeDetection.loop_up_detection ↦ 0b01
    | NetworkLoopCodeDetection.loop_down_detection ↦ 0b10
    | NetworkLoopCodeDetection.automatic_loop_up_detection_and_remote_activation ↦ 0b11
  ];
}

pub data WireGauge : Type 0 where
  gauge22_and24 gauge22 gauge24 gauge26 : WireGauge

instance abbrev pub wire_gauge : Specifier WireGauge
wire_gauge = record {
  width = 2;
  discriminant = λ v. elim v [
    | WireGauge.gauge22_and24 ↦ 0b00
    | WireGauge.gauge22 ↦ 0b01
    | WireGauge.gauge24 ↦ 0b10
    | WireGauge.gauge26 ↦ 0b11
  ];
}

pub data ClockSelect : Type 0 where
  m2_048 m1_544 m4_096 m3_088 m8_192 m6_176 m16_384 m12_352 : ClockSelect

instance abbrev pub clock_select : Specifier ClockSelect
clock_select = record {
  width = 4;
  discriminant = λ v. elim v [
    | ClockSelect.m2_048 ↦ 0b0000
    | ClockSelect.m1_544 ↦ 0b0001
    | ClockSelect.m4_096 ↦ 0b1000
    | ClockSelect.m3_088 ↦ 0b1001
    | ClockSelect.m8_192 ↦ 0b1010
    | ClockSelect.m6_176 ↦ 0b1011
    | ClockSelect.m16_384 ↦ 0b1100
    | ClockSelect.m12_352 ↦ 0b1101
  ];
}
