-- ===== src/Registers/Counters.antt =====
-- The layouts of the registers RUCR to CIASR of xrt86vx38-pac/src/register.rs, the most
-- significant bit first; a field whose type is an enumeration has the bits of that type.
use tedium.Common.{[], ◌∷◌}
use tedium.Registers.Layout.{Layout, skip, field}

unfoldable pub rucr_layout : Layout
rucr_layout = field "RxUSER" 8 ∷ []

unfoldable pub rsctr_layout : Layout
rsctr_layout =
    skip 1
    ∷ field "SIGC_ENB" 1
    ∷ field "OH_ENB" 1
    ∷ field "DEB_ENB" 1
    ∷ field "RxSIGC" 2
    ∷ field "RxSIGE" 2
    ∷ []

unfoldable pub rssr_layout : Layout
rssr_layout =
    skip 4
    ∷ field "SIG_16A_4A_2A" 1
    ∷ field "SIG_16B_4B_2A" 1
    ∷ field "SIG_16C_4A_2A" 1
    ∷ field "SIG_16D_4B_2A" 1
    ∷ []

unfoldable pub rsar_layout : Layout
rsar_layout = skip 4 ∷ field "A" 1 ∷ field "B" 1 ∷ field "C" 1 ∷ field "D" 1 ∷ []

unfoldable pub bisr_layout : Layout
bisr_layout =
    skip 1
    ∷ field "LBCODE" 1
    ∷ field "RxClkLOS" 1
    ∷ field "ONESEC" 1
    ∷ field "HDLC" 1
    ∷ field "SLIP" 1
    ∷ field "ALARM" 1
    ∷ field "T1FRAME" 1
    ∷ []

unfoldable pub bier_layout : Layout
bier_layout =
    skip 1
    ∷ field "LBCODE_ENB" 1
    ∷ field "RXCLKLOSS" 1
    ∷ field "ONESEC_ENB" 1
    ∷ field "HDLC_ENB" 1
    ∷ field "SLIP_ENB" 1
    ∷ field "ALARM_ENB" 1
    ∷ field "T1FRAME_ENB" 1
    ∷ []

unfoldable pub aeisr_layout : Layout
aeisr_layout =
    field "RxOOF_State" 1
    ∷ field "RxAIS_State" 1
    ∷ field "RxYEL_State" 1
    ∷ field "LOS_State" 1
    ∷ field "LCVInt_Status" 1
    ∷ field "RxOOF_State_Change" 1
    ∷ field "RxAIS_State_Change" 1
    ∷ field "RxYEL_State_Change" 1
    ∷ []

unfoldable pub aeier_layout : Layout
aeier_layout =
    skip 3
    ∷ field "SetToZero" 1
    ∷ field "LCV_ENB" 1
    ∷ field "RxOOF_ENB" 1
    ∷ field "RxAIS_ENB" 1
    ∷ field "RxYEL_ENB" 1
    ∷ []

unfoldable pub fisr_layout : Layout
fisr_layout =
    field "DS0_Change" 1
    ∷ field "DS0_Status" 1
    ∷ field "SIG" 1
    ∷ field "COFA" 1
    ∷ field "OOF_Status" 1
    ∷ field "FMD" 1
    ∷ field "SE" 1
    ∷ field "FE" 1
    ∷ []

unfoldable pub fier_layout : Layout
fier_layout =
    field "DS0_ENB" 1
    ∷ skip 1
    ∷ field "SIG_ENB" 1
    ∷ field "COFA_ENB" 1
    ∷ field "OOF_ENB" 1
    ∷ field "FMD_ENB" 1
    ∷ field "SE_ENB" 1
    ∷ field "FE_ENB" 1
    ∷ []

unfoldable pub dlsrx_layout : Layout
dlsrx_layout =
    field "MSG_TYPE" 1
    ∷ field "TxSOT" 1
    ∷ field "RxSOT" 1
    ∷ field "TxEOT" 1
    ∷ field "RxEOT" 1
    ∷ field "FCS_ERR" 1
    ∷ field "RxABORT" 1
    ∷ field "RxIDLE" 1
    ∷ []

unfoldable pub dlierx_layout : Layout
dlierx_layout =
    skip 1
    ∷ field "TxSOT_ENB" 1
    ∷ field "RxSOT_ENB" 1
    ∷ field "TxEOT_ENB" 1
    ∷ field "RxEOT_ENB" 1
    ∷ field "FCS_ERR_ENB" 1
    ∷ field "RxABORT_ENB" 1
    ∷ field "RxIDLE_ENB" 1
    ∷ []

unfoldable pub sbisr_layout : Layout
sbisr_layout =
    field "TxSB_FULL" 1
    ∷ field "TxSB_EMPT" 1
    ∷ field "TxSB_SLIP" 1
    ∷ field "SLC96_LOCK" 1
    ∷ field "Multiframe_LOCK" 1
    ∷ field "RxSB_FULL" 1
    ∷ field "RxSB_EMPT" 1
    ∷ field "RxSB_SLIP" 1
    ∷ []

unfoldable pub sbier_layout : Layout
sbier_layout =
    field "TxFULL_ENB" 1
    ∷ field "TxEMPT_ENB" 1
    ∷ field "TxSLIP_ENB" 1
    ∷ skip 2
    ∷ field "RxFULL_ENB" 1
    ∷ field "RxEMPT_ENB" 1
    ∷ field "RxSLIP_ENB" 1
    ∷ []

unfoldable pub rlcisrx_layout : Layout
rlcisrx_layout =
    skip 4 ∷ field "RXASTAT" 1 ∷ field "RXDSTAT" 1 ∷ field "RXAINT" 1 ∷ field "RXDINT" 1 ∷ []

unfoldable pub rlcierx_layout : Layout
rlcierx_layout = skip 6 ∷ field "RXAENB" 1 ∷ field "RXDENB" 1 ∷ []

unfoldable pub exzsr_layout : Layout
exzsr_layout = skip 7 ∷ field "EXZ_STATUS" 1 ∷ []

unfoldable pub exzer_layout : Layout
exzer_layout = skip 7 ∷ field "EXZ_ENB" 1 ∷ []

unfoldable pub ss7srx_layout : Layout
ss7srx_layout = skip 7 ∷ field "SS7_STATUS" 1 ∷ []

unfoldable pub ss7erx_layout : Layout
ss7erx_layout = skip 7 ∷ field "SS7_ENB" 1 ∷ []

unfoldable pub rlcisr_layout : Layout
rlcisr_layout = skip 4 ∷ field "RxLOSINT" 1 ∷ skip 3 ∷ []

unfoldable pub rlcier_layout : Layout
rlcier_layout = skip 4 ∷ field "RxLOS_ENB" 1 ∷ skip 3 ∷ []

unfoldable pub ciasr_layout : Layout
ciasr_layout =
    skip 2
    ∷ field "RxAIS_CI_state" 1
    ∷ field "RxRAI_CI_state" 1
    ∷ skip 2
    ∷ field "RxAIS_CI" 1
    ∷ field "RxRAI_CI" 1
    ∷ []
