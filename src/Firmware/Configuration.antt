-- ===== src/Firmware/Configuration.antt =====
-- The configuration of the chip (`configure_timeslot`, `configure_channel` and `configure` of
-- tedium-soc/src/main.rs): every register is written, or its fields are modified, by the accessors
-- and setters that the source names, in its order. An error of the chip ends it, by `?`.
pub mod Interrupts
pub mod Script
pub mod Sound
pub mod Enabling
pub mod Isolation
mod Tests
use tedium.Common.{ℕ, List, [], ◌∷◌}
use tedium.Registers.Bitfield.{Bitfield}
use tedium.Registers.Counters.{rsctr_layout, rssr_layout, rucr_layout}
use tedium.Registers.Framing.{
  csr_layout, dlcr_layout, fcr_layout, fsr_layout, licr_layout, prcr_layout, ricr_layout,
  sbcr_layout, smr_layout, ticr_layout,
}
use tedium.Registers.Lines.{liuccr0_layout, liuccr1_layout, liuccr2_layout, liugcr4_layout}
use tedium.Registers.Loopback.{rccr_layout, tccr_layout, tscr_layout, tsprmcr_layout, tucr_layout}
use tedium.Registers.Values.{
  value, AutomaticPerformanceReport, ChannelConditioning, ChannelSignalingSource, ClockSelect,
  ClockSource, FramerLoopback, LiuLoopback, PrbsDestination, PrbsPattern, ReceiveLapdSource,
  ReceiveSignalingConditioning, ReceiveSignalingExtraction, ReceiveSlipBuffer, T1Framing,
  Termination, TerminationImpedance, TransmitLapdSource, TransmitTestPattern, ZeroCodeSuppression,
  automatic_performance_report, channel_conditioning, channel_signaling_source, clock_select,
  clock_source, framer_loopback, liu_loopback, prbs_destination, prbs_pattern, receive_lapd_source,
  receive_signaling_conditioning, receive_signaling_extraction, receive_slip_buffer, t1_framing,
  termination, termination_impedance, transmit_lapd_source, transmit_test_pattern,
  zero_code_suppression,
}
use tedium.Device.Offsets
use tedium.Device.Accessors
use tedium.Device.Globals
use tedium.Device.Iterators.{timeslots, channels}
use tedium.Device.Access.{Action, Xyz, ◌>>=◌, ◌>>◌, pure, for_each}
use tedium.Device.Access.Typed.{
  write_global, write_framer, modify_framer, write_liu, write_timeslot,
}

module _ {S : Type 0} (bf : Bitfield) (device : Xyz S) where
  unfoldable pub configure_timeslot : (channel timeslot : ℕ) → Action S (Unit {0})
  configure_timeslot channel timeslot = do
    write_timeslot bf device channel timeslot Accessors.tccr tccr_layout (
        ("LAPDcntl", (value TransmitLapdSource.tsdlsr_txde))
        ∷ ("TxZERO", (value ZeroCodeSuppression.none))
        ∷ ("TxCOND", (value ChannelConditioning.unchanged))
        ∷ [])
    write_timeslot bf device channel timeslot Accessors.tucr tucr_layout
        (("TUCR", 0b0001_0111) ∷ [])
    write_timeslot bf device channel timeslot Accessors.tscr tscr_layout (
        ("A_x", 0)
        ∷ ("B_y", 1)
        ∷ ("C_x", 0)
        ∷ ("D_x", 1)
        ∷ ("Rob_Enb", 1)
        ∷ ("TxSIGSRC", (value ChannelSignalingSource.tscr))
        ∷ [])
    write_timeslot bf device channel timeslot Accessors.rccr rccr_layout (
        ("LAPDcntl", (value ReceiveLapdSource.rsdlsr_rxde))
        ∷ ("RxZERO", (value ZeroCodeSuppression.none))
        ∷ ("RxCOND", (value ChannelConditioning.unchanged))
        ∷ [])
    write_timeslot bf device channel timeslot Accessors.rucr rucr_layout
        (("RxUSER", 0b1111_1111) ∷ [])
    write_timeslot bf device channel timeslot Accessors.rscr rsctr_layout (
        ("SIGC_ENB", 0)
        ∷ ("OH_ENB", 0)
        ∷ ("DEB_ENB", 1)
        ∷ ("RxSIGC", (value ReceiveSignalingConditioning.sixteen_code_abcd))
        ∷ ("RxSIGE", (value ReceiveSignalingExtraction.sixteen_code_abcd))
        ∷ [])
    write_timeslot bf device channel timeslot Accessors.rssr rssr_layout (
        ("SIG_16A_4A_2A", 0)
        ∷ ("SIG_16B_4B_2A", 0)
        ∷ ("SIG_16C_4A_2A", 0)
        ∷ ("SIG_16D_4B_2A", 0)
        ∷ [])
    pure tt

  unfoldable pub configure_channel : ℕ → Action S (Unit {0})
  configure_channel channel = do
    write_framer bf device channel Offsets.csr csr_layout (
        ("LCV_Insert", 0)
        ∷ ("Set_T1_Mode", 1)
        ∷ ("Sync_All_Transmitters_to_8kHz", 0)
        ∷ ("Clock_Loss_Detect", 1)
        ∷ ("CSS", (value ClockSource.external))
        ∷ [])
    write_framer bf device channel Offsets.licr licr_layout (
        ("FORCE_LOS", 0)
        ∷ ("Single_Rail_Mode", 0)
        ∷ ("LB", (value FramerLoopback.no_loopback))
        ∷ ("Encode_B8ZS", 0)
        ∷ ("Decode_AMI_B8ZS", 0)
        ∷ [])
    write_framer bf device channel Offsets.fsr fsr_layout (
        ("Signaling_update_on_Superframe_Boundaries", 1)
        ∷ ("Force_CRC_Errors", 0)
        ∷ ("J1_MODE", 0)
        ∷ ("ONEONLY", 1)
        ∷ ("FASTSYNC", 0)
        ∷ ("FSI", (value T1Framing.extended_super_frame))
        ∷ [])
    write_framer bf device channel Offsets.smr smr_layout (
        ("MFRAMEALIGN", 0)
        ∷ ("MSYNC", 0)
        ∷ ("Transmit_Frame_Sync_Select", 0)
        ∷ ("CRC6_Bits_Source_Select", 0)
        ∷ ("Framing_Bits_Source_Select", 0)
        ∷ [])
    write_framer bf device channel Offsets.fcr fcr_layout (
        ("Reframe", 0)
        ∷ ("Framing_with_CRC_Checking", 1)
        ∷ ("LOF_Tolerance", 2)
        ∷ ("LOF_Range", 5)
        ∷ [])
    modify_framer bf device channel Offsets.dlcr1 dlcr_layout (
        ("SLC96_Data_Link_Enable", 0)
        ∷ ("MOS_ABORT_Disable", 0)
        ∷ ("Rx_FCS_DIS", 0)
        ∷ ("AutoRx", 0)
        ∷ ("Tx_ABORT", 0)
        ∷ ("Tx_IDLE", 0)
        ∷ ("Tx_FCS_EN", 0)
        ∷ ("MOS_BOSn", 1)
        ∷ [])
    modify_framer bf device channel Offsets.tsprmcr tsprmcr_layout
        (("FC_Bit", 0) ∷ ("PA_Bit", 0) ∷ ("U1_Bit", 0) ∷ ("U2_Bit", 0) ∷ ("R_Bit", 0b0000) ∷ [])
    modify_framer bf device channel Offsets.prcr prcr_layout (
        ("LBO_ADJ_ENB", 0)
        ∷ ("FAR_END", 0)
        ∷ ("NPRM", 0b00)
        ∷ ("C_R_Bit", 0)
        ∷ ("APCR", (value AutomaticPerformanceReport.every_second))
        ∷ [])
    write_framer bf device channel Offsets.sbcr sbcr_layout (
        ("TxSB_ISFIFO", 0)
        ∷ ("SB_FORCESF", 0)
        ∷ ("SB_SFENB", 0)
        ∷ ("SB_SDIR", 1)
        ∷ ("SB_ENB", (value ReceiveSlipBuffer.slip_buffer))
        ∷ [])
    write_framer bf device channel Offsets.ticr ticr_layout (
        ("TxSyncFrD", 0)
        ∷ ("TxPLClkEnb_TxSync_Is_Low", 0)
        ∷ ("TxFr1544", 0)
        ∷ ("TxICLKINV", 0)
        ∷ ("TxIMODE", 0b00)
        ∷ [])
    write_framer bf device channel Offsets.ricr ricr_layout (
        ("RxSyncFrD", 0)
        ∷ ("RxPLClkEnb_RxSync_Is_Low", 0)
        ∷ ("RxFr1544", 1)
        ∷ ("RxICLKINV", 0)
        ∷ ("RxMUXEN", 0)
        ∷ ("RxIMODE", 0b00)
        ∷ [])
    write_liu bf device channel Offsets.liuccr0 liuccr0_layout (
        ("QRSS_n_PRBS_n", (value PrbsPattern.prbs))
        ∷ ("PRBS_Rx_n_PRBS_Tx_n", (value PrbsDestination.ttip_tring))
        ∷ ("RXON_n", 1)
        ∷ ("EQC", 0x08)
        ∷ [])
    write_liu bf device channel Offsets.liuccr1 liuccr1_layout (
        ("RXTSEL_n", (value Termination.internal))
        ∷ ("TXTSEL_n", (value Termination.internal))
        ∷ ("TERSEL", (value TerminationImpedance.ohms100))
        ∷ ("RxJASEL_n", 1)
        ∷ ("TxJASEL_n", 1)
        ∷ ("JABW_n", 0)
        ∷ ("FIFOS_n", 0)
        ∷ [])
    write_liu bf device channel Offsets.liuccr2 liuccr2_layout (
        ("INVQRSS_n", 0)
        ∷ ("TXTEST", (value TransmitTestPattern.none))
        ∷ ("TXON_n", 1)
        ∷ ("LOOP2_n", (value LiuLoopback.none))
        ∷ [])
    for_each timeslots (configure_timeslot channel)

  unfoldable pub configure : Action S (Unit {0})
  configure = do
    write_global bf device Globals.liugcr4 liugcr4_layout
        (("CLKSEL", value ClockSelect.m16_384) ∷ [])
    for_each channels configure_channel
    pure tt
