-- ===== src/Registers/Lines.antt =====
-- The layouts of the registers CIAIER to REVID of xrt86vx38-pac/src/register.rs, the most
-- significant bit first; a field whose type is an enumeration has the bits of that type.
use tedium.Common.{[], ◌∷◌}
use tedium.Registers.Layout.{Layout, skip, field}

unfoldable pub ciaier_layout : Layout
ciaier_layout = skip 6 ∷ field "RxAIS_CI_ENB" 1 ∷ field "RxRAI_CI_ENB" 1 ∷ []

unfoldable pub bocisr_layout : Layout
bocisr_layout =
    field "RMTCH3" 1
    ∷ field "RMTCH2" 1
    ∷ field "BOCC" 1
    ∷ field "RFDLAD" 1
    ∷ field "RFDLF" 1
    ∷ field "TFDLE" 1
    ∷ field "RMTCH1" 1
    ∷ field "RBOC" 1
    ∷ []

unfoldable pub bocier_layout : Layout
bocier_layout =
    field "RMTCH3" 1
    ∷ field "RMTCH2" 1
    ∷ field "BOCC" 1
    ∷ field "RFDLAD" 1
    ∷ field "RFDLF" 1
    ∷ field "TFDLE" 1
    ∷ field "RMTCH1" 1
    ∷ field "RBOC" 1
    ∷ []

unfoldable pub bocuisr_layout : Layout
bocuisr_layout = skip 1 ∷ field "Unstable" 1 ∷ skip 6 ∷ []

unfoldable pub bocuier_layout : Layout
bocuier_layout = skip 1 ∷ field "Unstable" 1 ∷ skip 6 ∷ []

unfoldable pub liuccr0_layout : Layout
liuccr0_layout =
    field "QRSS_n_PRBS_n" 1 ∷ field "PRBS_Rx_n_PRBS_Tx_n" 1 ∷ field "RXON_n" 1 ∷ field "EQC" 5 ∷ []

unfoldable pub liuccr1_layout : Layout
liuccr1_layout =
    field "RXTSEL_n" 1
    ∷ field "TXTSEL_n" 1
    ∷ field "TERSEL" 2
    ∷ field "RxJASEL_n" 1
    ∷ field "TxJASEL_n" 1
    ∷ field "JABW_n" 1
    ∷ field "FIFOS_n" 1
    ∷ []

unfoldable pub liuccr2_layout : Layout
liuccr2_layout = field "INVQRSS_n" 1 ∷ field "TXTEST" 3 ∷ field "TXON_n" 1 ∷ field "LOOP2_n" 3 ∷ []

unfoldable pub liuccr3_layout : Layout
liuccr3_layout =
    field "NLCDE" 2
    ∷ field "CODES_n" 1
    ∷ skip 2
    ∷ field "INSBPV_n" 1
    ∷ field "INSBER_n" 1
    ∷ skip 1
    ∷ []

unfoldable pub liuccier_layout : Layout
liuccier_layout =
    skip 1
    ∷ field "DMOIE_n" 1
    ∷ field "FLSIE_n" 1
    ∷ field "LCVIE_n" 1
    ∷ field "NLCDIE_n" 1
    ∷ field "AISDIE_n" 1
    ∷ field "RLOSIE_n" 1
    ∷ field "QRPDIE_n" 1
    ∷ []

unfoldable pub liuccsr_layout : Layout
liuccsr_layout =
    skip 1
    ∷ field "DMO_n" 1
    ∷ field "FLS_n" 1
    ∷ field "LCV_n" 1
    ∷ field "NLCD_n" 1
    ∷ field "AISD_n" 1
    ∷ field "RLOS_n" 1
    ∷ field "QRPD_n" 1
    ∷ []

unfoldable pub liuccisr_layout : Layout
liuccisr_layout =
    skip 1
    ∷ field "DMOIS_n" 1
    ∷ field "FLSIS_n" 1
    ∷ field "LCVIS_n" 1
    ∷ field "NLCDIS_n" 1
    ∷ field "AISDIS_n" 1
    ∷ field "RLOSIS_n" 1
    ∷ field "QRPDIS_n" 1
    ∷ []

unfoldable pub liuccccr_layout : Layout
liuccccr_layout = skip 2 ∷ field "CLOS" 6 ∷ []

unfoldable pub liuccar_layout : Layout
liuccar_layout = skip 1 ∷ field "Arb_Seg" 7 ∷ []

unfoldable pub liugcr0_layout : Layout
liugcr0_layout =
    field "SR" 1
    ∷ field "ATAOS" 1
    ∷ field "RCLKE" 1
    ∷ field "TCLKE" 1
    ∷ field "DATAP" 1
    ∷ skip 1
    ∷ field "GIE" 1
    ∷ field "SRESET" 1
    ∷ []

unfoldable pub liugcr1_layout : Layout
liugcr1_layout =
    field "TxSYNC_Sect13" 1
    ∷ field "RxSYNC_Sect13" 1
    ∷ field "Gauge" 2
    ∷ skip 1
    ∷ field "RXMUTE" 1
    ∷ field "EXLOS" 1
    ∷ field "ICT" 1
    ∷ []

unfoldable pub liugcr2_layout : Layout
liugcr2_layout = field "Force_to_0" 1 ∷ skip 7 ∷ []

unfoldable pub liugcr3_layout : Layout
liugcr3_layout = skip 8 ∷ []

unfoldable pub liugcr4_layout : Layout
liugcr4_layout = skip 4 ∷ field "CLKSEL" 4 ∷ []

unfoldable pub liugcr5_layout : Layout
liugcr5_layout = skip 7 ∷ field "GCHIS0" 1 ∷ []

unfoldable pub devid_layout : Layout
devid_layout = field "DEVID" 8 ∷ []

unfoldable pub revid_layout : Layout
revid_layout = field "REVID" 8 ∷ []
