-- ===== src/Registers/Enumerations.antt =====
-- Each enumeration of field values with the register fields that are declared with it
-- (xrt86vx38-pac/src/register.rs).
pub mod Stored
use tedium.Common.{List, [], ◌∷◌}
use Prim.Native.String.{String}
use tedium.Registers.Layout.{Layout}
use tedium.Registers.Values
use tedium.Registers.Values.{Specifier}
use tedium.Registers.Counters.{rsctr_layout}
use tedium.Registers.Framing.{
  agr_layout, bertcsr0_layout, csr_layout, fsr_layout, licr_layout, prcr_layout, sbcr_layout,
}
use tedium.Registers.Lines.{
  liuccr0_layout, liuccr1_layout, liuccr2_layout, liuccr3_layout, liugcr1_layout, liugcr4_layout,
}
use tedium.Registers.Loopback.{bcr_layout, rccr_layout, tccr_layout, tscr_layout}

pub data Enumeration : Type 0 where
  clock_source framer_loopback t1_framing transmit_ais_pattern ais_detection receive_slip_buffer
        automatic_performance_report bit_error_insertion_rate bert_pattern transmit_lapd_source
        zero_code_suppression channel_conditioning channel_signaling_source receive_lapd_source
        receive_signaling_conditioning receive_signaling_extraction prbs_pattern prbs_destination
        termination termination_impedance transmit_test_pattern liu_loopback
        network_loop_code_detection wire_gauge clock_select :
      Enumeration

-- The type of the values.
unfoldable pub Value : Enumeration → Type 0
Value clock_source = Values.ClockSource
Value framer_loopback = Values.FramerLoopback
Value t1_framing = Values.T1Framing
Value transmit_ais_pattern = Values.TransmitAisPattern
Value ais_detection = Values.AisDetection
Value receive_slip_buffer = Values.ReceiveSlipBuffer
Value automatic_performance_report = Values.AutomaticPerformanceReport
Value bit_error_insertion_rate = Values.BitErrorInsertionRate
Value bert_pattern = Values.BertPattern
Value transmit_lapd_source = Values.TransmitLapdSource
Value zero_code_suppression = Values.ZeroCodeSuppression
Value channel_conditioning = Values.ChannelConditioning
Value channel_signaling_source = Values.ChannelSignalingSource
Value receive_lapd_source = Values.ReceiveLapdSource
Value receive_signaling_conditioning = Values.ReceiveSignalingConditioning
Value receive_signaling_extraction = Values.ReceiveSignalingExtraction
Value prbs_pattern = Values.PrbsPattern
Value prbs_destination = Values.PrbsDestination
Value termination = Values.Termination
Value termination_impedance = Values.TerminationImpedance
Value transmit_test_pattern = Values.TransmitTestPattern
Value liu_loopback = Values.LiuLoopback
Value network_loop_code_detection = Values.NetworkLoopCodeDetection
Value wire_gauge = Values.WireGauge
Value clock_select = Values.ClockSelect

unfoldable pub specifier : (e : Enumeration) → Specifier (Value e)
unfolding Value
specifier clock_source = Values.clock_source
specifier framer_loopback = Values.framer_loopback
specifier t1_framing = Values.t1_framing
specifier transmit_ais_pattern = Values.transmit_ais_pattern
specifier ais_detection = Values.ais_detection
specifier receive_slip_buffer = Values.receive_slip_buffer
specifier automatic_performance_report = Values.automatic_performance_report
specifier bit_error_insertion_rate = Values.bit_error_insertion_rate
specifier bert_pattern = Values.bert_pattern
specifier transmit_lapd_source = Values.transmit_lapd_source
specifier zero_code_suppression = Values.zero_code_suppression
specifier channel_conditioning = Values.channel_conditioning
specifier channel_signaling_source = Values.channel_signaling_source
specifier receive_lapd_source = Values.receive_lapd_source
specifier receive_signaling_conditioning = Values.receive_signaling_conditioning
specifier receive_signaling_extraction = Values.receive_signaling_extraction
specifier prbs_pattern = Values.prbs_pattern
specifier prbs_destination = Values.prbs_destination
specifier termination = Values.termination
specifier termination_impedance = Values.termination_impedance
specifier transmit_test_pattern = Values.transmit_test_pattern
specifier liu_loopback = Values.liu_loopback
specifier network_loop_code_detection = Values.network_loop_code_detection
specifier wire_gauge = Values.wire_gauge
specifier clock_select = Values.clock_select

-- The fields of that type, by register and name.
unfoldable pub fields : Enumeration → List (Layout × String)
fields clock_source = (csr_layout, "CSS") ∷ []
fields framer_loopback = (licr_layout, "LB") ∷ []
fields t1_framing = (fsr_layout, "FSI") ∷ []
fields transmit_ais_pattern = (agr_layout, "Transmit_AIS_Pattern_Select") ∷ []
fields ais_detection = (agr_layout, "AIS_Defect_Declaration_Criteria") ∷ []
fields receive_slip_buffer = (sbcr_layout, "SB_ENB") ∷ []
fields automatic_performance_report = (prcr_layout, "APCR") ∷ []
fields bit_error_insertion_rate = (bertcsr0_layout, "BER") ∷ []
fields bert_pattern = (bcr_layout, "BERT") ∷ []
fields transmit_lapd_source = (tccr_layout, "LAPDcntl") ∷ []
fields zero_code_suppression = (tccr_layout, "TxZERO") ∷ (rccr_layout, "RxZERO") ∷ []
fields channel_conditioning = (tccr_layout, "TxCOND") ∷ (rccr_layout, "RxCOND") ∷ []
fields channel_signaling_source = (tscr_layout, "TxSIGSRC") ∷ []
fields receive_lapd_source = (rccr_layout, "LAPDcntl") ∷ []
fields receive_signaling_conditioning = (rsctr_layout, "RxSIGC") ∷ []
fields receive_signaling_extraction = (rsctr_layout, "RxSIGE") ∷ []
fields prbs_pattern = (liuccr0_layout, "QRSS_n_PRBS_n") ∷ []
fields prbs_destination = (liuccr0_layout, "PRBS_Rx_n_PRBS_Tx_n") ∷ []
fields termination = (liuccr1_layout, "RXTSEL_n") ∷ (liuccr1_layout, "TXTSEL_n") ∷ []
fields termination_impedance = (liuccr1_layout, "TERSEL") ∷ []
fields transmit_test_pattern = (liuccr2_layout, "TXTEST") ∷ []
fields liu_loopback = (liuccr2_layout, "LOOP2_n") ∷ []
fields network_loop_code_detection = (liuccr3_layout, "NLCDE") ∷ []
fields wire_gauge = (liugcr1_layout, "Gauge") ∷ []
fields clock_select = (liugcr4_layout, "CLKSEL") ∷ []
