-- ===== src/Registers/Loopback.antt =====
-- The layouts of the registers BERTCSR1 to RCCR of xrt86vx38-pac/src/register.rs, the most
-- significant bit first; a field whose type is an enumeration has the bits of that type.
use tedium.Common.{[], ◌∷◌}
use tedium.Registers.Layout.{Layout, skip, field}

unfoldable pub bertcsr1_layout : Layout
bertcsr1_layout =
    field "PRBSTyp" 1
    ∷ field "ERRORIns" 1
    ∷ field "DATAInv" 1
    ∷ field "RxBERTLock" 1
    ∷ field "RxBERTEnb" 1
    ∷ field "TxBERTEnb" 1
    ∷ field "RxBypass" 1
    ∷ field "TxBypass" 1
    ∷ []

unfoldable pub lccr0_layout : Layout
lccr0_layout =
    field "RXLBCALEN" 2
    ∷ field "RXLBCDLEN" 2
    ∷ field "TXLBCLEN" 2
    ∷ field "FRAMED" 1
    ∷ field "AUTOENB" 1
    ∷ []

unfoldable pub lccr_layout : Layout
lccr_layout = field "RXLBCALEN" 2 ∷ field "RXLBCDLEN" 2 ∷ skip 2 ∷ field "FRAMED" 1 ∷ skip 1 ∷ []

unfoldable pub tlcr_layout : Layout
tlcr_layout = field "TXLBC" 7 ∷ field "TXLBCENB" 1 ∷ []

unfoldable pub rlacr_layout : Layout
rlacr_layout = field "RXLBAC" 7 ∷ field "RXLBACENB" 1 ∷ []

unfoldable pub rldcr_layout : Layout
rldcr_layout = field "RXLBDC" 7 ∷ field "RXLBDCENB" 1 ∷ []

unfoldable pub rlcds_layout : Layout
rlcds_layout = field "RxLCDetSwitch" 8 ∷ []

unfoldable pub dder_layout : Layout
dder_layout = field "DEFDET" 1 ∷ skip 7 ∷ []

unfoldable pub tlcgs_layout : Layout
tlcgs_layout = skip 7 ∷ field "TxLCGenSwitch" 1 ∷ []

unfoldable pub lcts_layout : Layout
lcts_layout = skip 5 ∷ field "LCTimer" 3 ∷ []

unfoldable pub tsprmcr_layout : Layout
tsprmcr_layout =
    field "FC_Bit" 1 ∷ field "PA_Bit" 1 ∷ field "U1_Bit" 1 ∷ field "U2_Bit" 1 ∷ field "R_Bit" 4 ∷ []

unfoldable pub bcr_layout : Layout
bcr_layout = skip 4 ∷ field "BERT" 4 ∷ []

unfoldable pub boccr_layout : Layout
boccr_layout =
    field "TxABORT" 1
    ∷ field "RMF" 2
    ∷ field "RBOCE" 1
    ∷ field "BOCR" 1
    ∷ field "RBF" 2
    ∷ field "SBOC" 1
    ∷ []

unfoldable pub rfdlr_layout : Layout
rfdlr_layout = skip 2 ∷ field "RBOC" 6 ∷ []

unfoldable pub rfdlmr_layout : Layout
rfdlmr_layout = skip 2 ∷ field "RFDLM" 6 ∷ []

unfoldable pub tfdlr_layout : Layout
tfdlr_layout = skip 2 ∷ field "TBOC" 6 ∷ []

unfoldable pub tbcr_layout : Layout
tbcr_layout = field "TBCR" 8 ∷ []

unfoldable pub rds0mr_layout : Layout
rds0mr_layout = field "RxDS_0" 8 ∷ []

unfoldable pub tds0mr_layout : Layout
tds0mr_layout = field "TxDS_0" 8 ∷ []

unfoldable pub tccr_layout : Layout
tccr_layout = field "LAPDcntl" 2 ∷ field "TxZERO" 2 ∷ field "TxCOND" 4 ∷ []

unfoldable pub tucr_layout : Layout
tucr_layout = field "TUCR" 8 ∷ []

unfoldable pub tscr_layout : Layout
tscr_layout =
    field "A_x" 1
    ∷ field "B_y" 1
    ∷ field "C_x" 1
    ∷ field "D_x" 1
    ∷ skip 1
    ∷ field "Rob_Enb" 1
    ∷ field "TxSIGSRC" 2
    ∷ []

unfoldable pub rccr_layout : Layout
rccr_layout = field "LAPDcntl" 2 ∷ field "RxZERO" 2 ∷ field "RxCOND" 4 ∷ []
