-- ===== src/Registers/Framing.antt =====
-- The layouts of the registers CSR to RICR of xrt86vx38-pac/src/register.rs, the most
-- significant bit first; a field whose type is an enumeration has the bits of that type.
use tedium.Common.{[], ◌∷◌}
use tedium.Registers.Layout.{Layout, skip, field}

unfoldable pub csr_layout : Layout
csr_layout =
    field "LCV_Insert" 1
    ∷ field "Set_T1_Mode" 1
    ∷ field "Sync_All_Transmitters_to_8kHz" 1
    ∷ field "Clock_Loss_Detect" 1
    ∷ skip 2
    ∷ field "CSS" 2
    ∷ []

unfoldable pub licr_layout : Layout
licr_layout =
    field "FORCE_LOS" 1
    ∷ field "Single_Rail_Mode" 1
    ∷ field "LB" 2
    ∷ skip 2
    ∷ field "Encode_B8ZS" 1
    ∷ field "Decode_AMI_B8ZS" 1
    ∷ []

unfoldable pub fsr_layout : Layout
fsr_layout =
    field "Signaling_update_on_Superframe_Boundaries" 1
    ∷ field "Force_CRC_Errors" 1
    ∷ field "J1_MODE" 1
    ∷ field "ONEONLY" 1
    ∷ field "FASTSYNC" 1
    ∷ field "FSI" 3
    ∷ []

unfoldable pub agr_layout : Layout
agr_layout =
    field "Yellow_Alarm_One_Second_Rule" 1
    ∷ field "ALARM_ENB" 1
    ∷ field "YEL" 2
    ∷ field "Transmit_AIS_Pattern_Select" 2
    ∷ field "AIS_Defect_Declaration_Criteria" 2
    ∷ []

unfoldable pub smr_layout : Layout
smr_layout =
    skip 1
    ∷ field "MFRAMEALIGN" 1
    ∷ field "MSYNC" 1
    ∷ field "Transmit_Frame_Sync_Select" 1
    ∷ skip 2
    ∷ field "CRC6_Bits_Source_Select" 1
    ∷ field "Framing_Bits_Source_Select" 1
    ∷ []

unfoldable pub tsdlsr_layout : Layout
tsdlsr_layout = skip 2 ∷ field "TxDLBW" 2 ∷ field "TxDE" 2 ∷ field "TxDL" 2 ∷ []

unfoldable pub fcr_layout : Layout
fcr_layout =
    field "Reframe" 1
    ∷ field "Framing_with_CRC_Checking" 1
    ∷ field "LOF_Tolerance" 3
    ∷ field "LOF_Range" 3
    ∷ []

unfoldable pub rsdlsr_layout : Layout
rsdlsr_layout = skip 2 ∷ field "RxDLBW" 2 ∷ field "RxDE" 2 ∷ field "RxDL" 2 ∷ []

unfoldable pub rschr_layout : Layout
rschr_layout = field "Ch" 8 ∷ []

unfoldable pub rifr_layout : Layout
rifr_layout =
    field "In_Frame" 1
    ∷ skip 1
    ∷ field "AIS_Ingress" 1
    ∷ field "FRAlarmMask" 1
    ∷ field "DS0Yel" 1
    ∷ field "DS0Yel_Switch" 1
    ∷ skip 2
    ∷ []

unfoldable pub dlcr_layout : Layout
dlcr_layout =
    field "SLC96_Data_Link_Enable" 1
    ∷ field "MOS_ABORT_Disable" 1
    ∷ field "Rx_FCS_DIS" 1
    ∷ field "AutoRx" 1
    ∷ field "Tx_ABORT" 1
    ∷ field "Tx_IDLE" 1
    ∷ field "Tx_FCS_EN" 1
    ∷ field "MOS_BOSn" 1
    ∷ []

unfoldable pub tdlbcr_layout : Layout
tdlbcr_layout = field "TxHDLC_BUFAvail_BUFSel" 1 ∷ field "TDLBC" 7 ∷ []

unfoldable pub rdlbcr_layout : Layout
rdlbcr_layout = field "RBUFPTR" 1 ∷ field "RDLBC" 7 ∷ []

unfoldable pub sbcr_layout : Layout
sbcr_layout =
    field "TxSB_ISFIFO" 1
    ∷ skip 2
    ∷ field "SB_FORCESF" 1
    ∷ field "SB_SFENB" 1
    ∷ field "SB_SDIR" 1
    ∷ field "SB_ENB" 2
    ∷ []

unfoldable pub fifolr_layout : Layout
fifolr_layout = skip 3 ∷ field "Rx_Slip_Buffer_FIFO_Latency" 5 ∷ []

unfoldable pub icr_layout : Layout
icr_layout = skip 5 ∷ field "INT_WC_RUR" 1 ∷ field "ENBCLR" 1 ∷ field "INTRUP_ENB" 1 ∷ []

unfoldable pub lapdsr_layout : Layout
lapdsr_layout =
    skip 3
    ∷ field "HDLC3en" 1
    ∷ field "HDLC2en" 1
    ∷ field "HDLC1en" 1
    ∷ field "HDLC_Controller_Select" 2
    ∷ []

unfoldable pub ciagr_layout : Layout
ciagr_layout = skip 4 ∷ field "CIAG" 2 ∷ field "CIAD" 2 ∷ []

unfoldable pub prcr_layout : Layout
prcr_layout =
    field "LBO_ADJ_ENB" 1
    ∷ field "RLOS_OUT_ENB" 1
    ∷ field "FAR_END" 1
    ∷ field "NPRM" 2
    ∷ field "C_R_Bit" 1
    ∷ field "APCR" 2
    ∷ []

unfoldable pub gccr_layout : Layout
gccr_layout = field "FrOutclk" 1 ∷ skip 5 ∷ field "TxGCCR" 1 ∷ field "RxGCCR" 1 ∷ []

unfoldable pub ticr_layout : Layout
ticr_layout =
    field "TxSyncFrD" 1
    ∷ skip 1
    ∷ field "TxPLClkEnb_TxSync_Is_Low" 1
    ∷ field "TxFr1544" 1
    ∷ field "TxICLKINV" 1
    ∷ field "TxMUXEN" 1
    ∷ field "TxIMODE" 2
    ∷ []

unfoldable pub bertcsr0_layout : Layout
bertcsr0_layout = skip 4 ∷ field "BERT_Switch" 1 ∷ field "BER" 2 ∷ field "UnFramedBERT" 1 ∷ []

unfoldable pub ricr_layout : Layout
ricr_layout =
    field "RxSyncFrD" 1
    ∷ skip 1
    ∷ field "RxPLClkEnb_RxSync_Is_Low" 1
    ∷ field "RxFr1544" 1
    ∷ field "RxICLKINV" 1
    ∷ field "RxMUXEN" 1
    ∷ field "RxIMODE" 2
    ∷ []
