-- ===== src/Registers/Catalogue.antt =====
-- All the registers of xrt86vx38-pac/src/register.rs.
use Prim.Native.String.{String}
use tedium.Common.{
  ℕ, zero, suc, ◌+◌, ◌≤◌, ◌==◌, ◌&&◌, ◌≢◌, ◌⊎◌, Bool, true, some, List, [], ◌∷◌, ◌≡◌, refl,
  get_elem?, arith,
}
use tedium.Registers.Layout.{
  Layout, bits, IsByte, Position, position, position_within, position_disjoint, names_distinct,
}
use tedium.Registers.Framing.{
  csr_layout, licr_layout, fsr_layout, agr_layout, smr_layout, tsdlsr_layout, fcr_layout,
  rsdlsr_layout, rschr_layout, rifr_layout, dlcr_layout, tdlbcr_layout, rdlbcr_layout, sbcr_layout,
  fifolr_layout, icr_layout, lapdsr_layout, ciagr_layout, prcr_layout, gccr_layout, ticr_layout,
  bertcsr0_layout, ricr_layout,
}
use tedium.Registers.Loopback.{
  bertcsr1_layout, lccr0_layout, lccr_layout, tlcr_layout, rlacr_layout, rldcr_layout, rlcds_layout,
  dder_layout, tlcgs_layout, lcts_layout, tsprmcr_layout, bcr_layout, boccr_layout, rfdlr_layout,
  rfdlmr_layout, tfdlr_layout, tbcr_layout, rds0mr_layout, tds0mr_layout, tccr_layout, tucr_layout,
  tscr_layout, rccr_layout,
}
use tedium.Registers.Counters.{
  rucr_layout, rsctr_layout, rssr_layout, rsar_layout, bisr_layout, bier_layout, aeisr_layout,
  aeier_layout, fisr_layout, fier_layout, dlsrx_layout, dlierx_layout, sbisr_layout, sbier_layout,
  rlcisrx_layout, rlcierx_layout, exzsr_layout, exzer_layout, ss7srx_layout, ss7erx_layout,
  rlcisr_layout, rlcier_layout, ciasr_layout,
}
use tedium.Registers.Lines.{
  ciaier_layout, bocisr_layout, bocier_layout, bocuisr_layout, bocuier_layout, liuccr0_layout,
  liuccr1_layout, liuccr2_layout, liuccr3_layout, liuccier_layout, liuccsr_layout, liuccisr_layout,
  liuccccr_layout, liuccar_layout, liugcr0_layout, liugcr1_layout, liugcr2_layout, liugcr3_layout,
  liugcr4_layout, liugcr5_layout, devid_layout, revid_layout,
}

abbrev pub registers : List Layout
registers =
    csr_layout ∷ licr_layout ∷ fsr_layout ∷ agr_layout ∷ smr_layout ∷ tsdlsr_layout ∷ fcr_layout
    ∷ rsdlsr_layout ∷ rschr_layout ∷ rifr_layout ∷ dlcr_layout ∷ tdlbcr_layout ∷ rdlbcr_layout
    ∷ sbcr_layout ∷ fifolr_layout ∷ icr_layout ∷ lapdsr_layout ∷ ciagr_layout ∷ prcr_layout
    ∷ gccr_layout ∷ ticr_layout ∷ bertcsr0_layout ∷ ricr_layout ∷ bertcsr1_layout ∷ lccr0_layout
    ∷ lccr_layout ∷ tlcr_layout ∷ rlacr_layout ∷ rldcr_layout ∷ rlcds_layout ∷ dder_layout
    ∷ tlcgs_layout ∷ lcts_layout ∷ tsprmcr_layout ∷ bcr_layout ∷ boccr_layout ∷ rfdlr_layout
    ∷ rfdlmr_layout ∷ tfdlr_layout ∷ tbcr_layout ∷ rds0mr_layout ∷ tds0mr_layout ∷ tccr_layout
    ∷ tucr_layout ∷ tscr_layout ∷ rccr_layout ∷ rucr_layout ∷ rsctr_layout ∷ rssr_layout
    ∷ rsar_layout ∷ bisr_layout ∷ bier_layout ∷ aeisr_layout ∷ aeier_layout ∷ fisr_layout
    ∷ fier_layout ∷ dlsrx_layout ∷ dlierx_layout ∷ sbisr_layout ∷ sbier_layout ∷ rlcisrx_layout
    ∷ rlcierx_layout ∷ exzsr_layout ∷ exzer_layout ∷ ss7srx_layout ∷ ss7erx_layout ∷ rlcisr_layout
    ∷ rlcier_layout ∷ ciasr_layout ∷ ciaier_layout ∷ bocisr_layout ∷ bocier_layout ∷ bocuisr_layout
    ∷ bocuier_layout ∷ liuccr0_layout ∷ liuccr1_layout ∷ liuccr2_layout ∷ liuccr3_layout
    ∷ liuccier_layout ∷ liuccsr_layout ∷ liuccisr_layout ∷ liuccccr_layout ∷ liuccar_layout
    ∷ liugcr0_layout ∷ liugcr1_layout ∷ liugcr2_layout ∷ liugcr3_layout ∷ liugcr4_layout
    ∷ liugcr5_layout ∷ devid_layout ∷ revid_layout ∷ []

all : (Layout → Bool) → List Layout → Bool
all p [] = true
all p (l ∷ ls) = p l && all p ls

all_at :
    (p : Layout → Bool) (ls : List Layout) (i : ℕ) (l : Layout)
    → get_elem? ls i ≡ some l
    → all p ls ≡ true
    → p l ≡ true
unfolding all
all_at p [] i l e h = absurd (ground arith)
all_at p (x ∷ ls) zero l e h = ground arith
all_at p (x ∷ ls) (suc i) l e h = all_at p ls i l e (ground arith)

abbrev is_byte : Layout → Bool
is_byte l = bits l == 8 && names_distinct l

registers_checked : all is_byte registers ≡ true
unfolding all names_distinct position csr_layout licr_layout fsr_layout agr_layout smr_layout
    tsdlsr_layout fcr_layout rsdlsr_layout rschr_layout rifr_layout dlcr_layout tdlbcr_layout
    rdlbcr_layout sbcr_layout fifolr_layout icr_layout lapdsr_layout ciagr_layout prcr_layout
    gccr_layout ticr_layout bertcsr0_layout ricr_layout bertcsr1_layout lccr0_layout lccr_layout
    tlcr_layout rlacr_layout rldcr_layout rlcds_layout dder_layout tlcgs_layout lcts_layout
    tsprmcr_layout bcr_layout boccr_layout rfdlr_layout rfdlmr_layout tfdlr_layout tbcr_layout
    rds0mr_layout tds0mr_layout tccr_layout tucr_layout tscr_layout rccr_layout rucr_layout
    rsctr_layout rssr_layout rsar_layout bisr_layout bier_layout aeisr_layout aeier_layout
    fisr_layout fier_layout dlsrx_layout dlierx_layout sbisr_layout sbier_layout rlcisrx_layout
    rlcierx_layout exzsr_layout exzer_layout ss7srx_layout ss7erx_layout rlcisr_layout rlcier_layout
    ciasr_layout ciaier_layout bocisr_layout bocier_layout bocuisr_layout bocuier_layout
    liuccr0_layout liuccr1_layout liuccr2_layout liuccr3_layout liuccier_layout liuccsr_layout
    liuccisr_layout liuccccr_layout liuccar_layout liugcr0_layout liugcr1_layout liugcr2_layout
    liugcr3_layout liugcr4_layout liugcr5_layout devid_layout revid_layout
registers_checked = refl

-- Every register of the chip has its members in a byte under distinct names; so any field lies
-- within the byte, and two fields of different names share no bit.
registers-IsByte :
    (i : ℕ) (l : Layout) (f g : String) (p q : Position)
    → get_elem? registers i ≡ some l
    → f ≢ g
    → position f l ≡ some p
    → position g l ≡ some q
    → IsByte l × (p.low + p.size ≤ 8) × ((p.low + p.size ≤ q.low) ⊎ (q.low + q.size ≤ p.low))
registers-IsByte i l f g p q at ne ef eg =
    let checked = all_at is_byte registers i l at registers_checked in
    let full : bits l ≡ 8 = ground arith in
    (
      record { full = full; distinct = ground arith },
      omega (arith, position_within f l p ef, full),
      position_disjoint f g l p q ne ef eg,
    )
