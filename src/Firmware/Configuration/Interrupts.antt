-- ===== src/Firmware/Configuration/Interrupts.antt =====
-- The interrupts that the firmware enables on a channel, and the reads that clear what is pending
-- (`enable_interrupts` of tedium-soc/src/main.rs; the branch under `if false` is empty).
use tedium.Common.{ℕ, [], ◌∷◌, range}
use tedium.Registers.Bitfield.{Bitfield}
use tedium.Registers.Counters.{
  aeier_layout, bier_layout, dlierx_layout, exzer_layout, fier_layout, rlcier_layout, sbier_layout,
  ss7erx_layout,
}
use tedium.Registers.Framing.{agr_layout, ciagr_layout, icr_layout}
use tedium.Registers.Lines.{bocier_layout, bocuier_layout, ciaier_layout, liuccier_layout}
use tedium.Registers.Values.{
  value, AisDetection, TransmitAisPattern, ais_detection, transmit_ais_pattern,
}
use tedium.Device.Offsets
use tedium.Device.Offsets.{framer_offset}
use tedium.Device.Accessors
use tedium.Device.Accessors.{access_framer}
use tedium.Device.Access.{Action, Xyz, ◌>>◌, for_each}
use tedium.Device.Access.Typed.{read_only, write_framer, modify_framer, modify_liu}

module _ {S : Type 0} (device : Xyz S) (channel : ℕ) where
  -- The part under `if clear_interrupts`.
  unfoldable pub clear_interrupts : Action S (Unit {0})
  clear_interrupts = do
    read_only device (Accessors.dlsr channel 0)
    read_only device (Accessors.dlsr channel 1)
    read_only device (Accessors.dlsr channel 2)
    read_only device (Accessors.rdlbcr channel 0)
    read_only device (Accessors.rdlbcr channel 1)
    read_only device (Accessors.rdlbcr channel 2)
    for_each (range 0 96) (λ _. do
      read_only device (Accessors.lapdbcr0 channel 0)
      read_only device (Accessors.lapdbcr1 channel 0))
    read_only device (Accessors.ss7sr channel 0)
    read_only device (Accessors.ss7sr channel 1)
    read_only device (Accessors.ss7sr channel 2)
    read_only device (access_framer channel (framer_offset Offsets.sbisr))
    read_only device (access_framer channel (framer_offset Offsets.aeisr))
    read_only device (access_framer channel (framer_offset Offsets.exzsr))
    read_only device (access_framer channel (framer_offset Offsets.ciasr))
    read_only device (access_framer channel (framer_offset Offsets.fisr))

module _ {S : Type 0} (bf : Bitfield) (device : Xyz S) where
  unfoldable pub enable_interrupts : ℕ → Action S (Unit {0})
  enable_interrupts channel = do
    write_framer bf device channel Offsets.bier bier_layout (
        ("LBCODE_ENB", 0)
        ∷ ("RXCLKLOSS", 0)
        ∷ ("ONESEC_ENB", 0)
        ∷ ("HDLC_ENB", 0)
        ∷ ("SLIP_ENB", 0)
        ∷ ("ALARM_ENB", 0)
        ∷ ("T1FRAME_ENB", 0)
        ∷ [])
    modify_framer bf device channel Offsets.agr agr_layout (
        ("Transmit_AIS_Pattern_Select", (value TransmitAisPattern.disable))
        ∷ ("AIS_Defect_Declaration_Criteria", (value AisDetection.unframed_and_framed))
        ∷ [])
    modify_framer bf device channel Offsets.agr agr_layout
        (("Yellow_Alarm_One_Second_Rule", 1) ∷ ("ALARM_ENB", 0) ∷ ("YEL", 0b01) ∷ [])
    modify_framer bf device channel Offsets.ciagr ciagr_layout (("CIAD", 0b10) ∷ [])
    modify_framer bf device channel Offsets.icr icr_layout
        (("INT_WC_RUR", 0) ∷ ("ENBCLR", 0) ∷ ("INTRUP_ENB", 1) ∷ [])
    modify_framer bf device channel Offsets.bier bier_layout (
        ("LBCODE_ENB", 0)
        ∷ ("RXCLKLOSS", 0)
        ∷ ("ONESEC_ENB", 0)
        ∷ ("HDLC_ENB", 1)
        ∷ ("SLIP_ENB", 1)
        ∷ ("ALARM_ENB", 1)
        ∷ ("T1FRAME_ENB", 1)
        ∷ [])
    modify_framer bf device channel Offsets.aeier aeier_layout
        (("LCV_ENB", 1) ∷ ("RxOOF_ENB", 1) ∷ ("RxAIS_ENB", 1) ∷ ("RxYEL_ENB", 1) ∷ [])
    modify_framer bf device channel Offsets.fier fier_layout (
        ("DS0_ENB", 1)
        ∷ ("SIG_ENB", 1)
        ∷ ("COFA_ENB", 1)
        ∷ ("OOF_ENB", 1)
        ∷ ("FMD_ENB", 1)
        ∷ ("SE_ENB", 1)
        ∷ ("FE_ENB", 1)
        ∷ [])
    modify_framer bf device channel Offsets.dlier1 dlierx_layout (
        ("TxSOT_ENB", 0)
        ∷ ("RxSOT_ENB", 0)
        ∷ ("TxEOT_ENB", 0)
        ∷ ("RxEOT_ENB", 1)
        ∷ ("FCS_ERR_ENB", 0)
        ∷ ("RxIDLE_ENB", 0)
        ∷ [])
    modify_framer bf device channel Offsets.sbier sbier_layout (
        ("TxFULL_ENB", 1)
        ∷ ("TxEMPT_ENB", 1)
        ∷ ("TxSLIP_ENB", 1)
        ∷ ("RxFULL_ENB", 1)
        ∷ ("RxEMPT_ENB", 1)
        ∷ ("RxSLIP_ENB", 1)
        ∷ [])
    modify_framer bf device channel Offsets.exzer exzer_layout (("EXZ_ENB", 1) ∷ [])
    modify_framer bf device channel Offsets.ss7er1 ss7erx_layout (("SS7_ENB", 0) ∷ [])
    modify_framer bf device channel Offsets.rlcier rlcier_layout (("RxLOS_ENB", 0) ∷ [])
    modify_framer bf device channel Offsets.ciaier ciaier_layout
        (("RxAIS_CI_ENB", 0) ∷ ("RxRAI_CI_ENB", 0) ∷ [])
    modify_framer bf device channel Offsets.bocier bocier_layout (
        ("RMTCH3", 0)
        ∷ ("RMTCH2", 0)
        ∷ ("BOCC", 0)
        ∷ ("RFDLAD", 0)
        ∷ ("RFDLF", 0)
        ∷ ("TFDLE", 0)
        ∷ ("RMTCH1", 0)
        ∷ ("RBOC", 0)
        ∷ [])
    modify_framer bf device channel Offsets.bocuier bocuier_layout (("Unstable", 0) ∷ [])
    modify_liu bf device channel Offsets.liuccier liuccier_layout (
        ("DMOIE_n", 0)
        ∷ ("FLSIE_n", 0)
        ∷ ("LCVIE_n", 0)
        ∷ ("NLCDIE_n", 0)
        ∷ ("AISDIE_n", 0)
        ∷ ("RLOSIE_n", 0)
        ∷ ("QRPDIE_n", 0)
        ∷ [])
    clear_interrupts device channel
