-- ===== src/Device/Offsets.antt =====
-- The registers of one channel of the framer chip, by the offset that its accessors pass on
-- (`Channel` and `Timeslot` of xrt86vx38-pac/src/device.rs). The accessors that take an index
-- stand in `Device.Accessors`.
use tedium.Common.{
  ℕ, Option, none, some, List, [], ◌∷◌, ◌==◌, if◌then◌else◌, ◌≡◌, refl, ap, ◌<◌, arith,
}

-- The accessors of `Channel` with a fixed offset in the page of the channel.
pub data FramerRegister : Type 0 where
  csr licr fsr agr smr tsdlsr fcr rsdlsr rifr dlcr1 tdlbcr1 sbcr fifolr icr : FramerRegister
  lapdsr ciagr prcr gccr ticr bertcsr0 ricr bertcsr1 lccr0 tlcr rlacr0 rldcr0 : FramerRegister
  rlcds dder lccr1 rlacr1 rldcr1 lccr2 rlacr2 rldcr2 tlcgs lcts tsprmcr dlcr2 : FramerRegister
  tdlbcr2 lccr3 rlacr3 rldcr3 lccr4 rlacr4 rldcr4 lccr5 rlacr5 rldcr5 lccr6 : FramerRegister
  rlacr6 rldcr6 dlcr3 tdlbcr3 lccr7 rlacr7 rldcr7 bcr boccr rfdlr rfdlmr1 : FramerRegister
  rfdlmr2 rfdlmr3 tfdlr tbcr rlcvcu rlcvcl rfaecu rfaecl rsefc rsbbecu rsbbecl : FramerRegister
  rsc rlfc rcfac lfcsec1 pbecu pbecl tsc ezvcu ezvcl lfcsec2 lfcsec3 bisr bier : FramerRegister
  aeisr aeier fisr fier dlier1 sbisr sbier rlcisr0 rlcier0 exzsr exzer ss7er1 : FramerRegister
  rlcisr rlcier rlcisr1 rlcier1 dlier2 ss7er2 rlcisr2 rlcier2 rlcisr3 rlcier3 : FramerRegister
  rlcisr4 rlcier4 rlcisr5 rlcier5 rlcisr6 rlcier6 rlcisr7 rlcier7 dlier3 ss7er3 : FramerRegister
  ciasr ciaier bocisr bocier bocuisr bocuier : FramerRegister

unfoldable pub framer_offset : FramerRegister → ℕ
framer_offset csr = 0x100
framer_offset licr = 0x101
framer_offset fsr = 0x107
framer_offset agr = 0x108
framer_offset smr = 0x109
framer_offset tsdlsr = 0x10a
framer_offset fcr = 0x10b
framer_offset rsdlsr = 0x10c
framer_offset rifr = 0x112
framer_offset dlcr1 = 0x113
framer_offset tdlbcr1 = 0x114
framer_offset sbcr = 0x116
framer_offset fifolr = 0x117
framer_offset icr = 0x11a
framer_offset lapdsr = 0x11b
framer_offset ciagr = 0x11c
framer_offset prcr = 0x11d
framer_offset gccr = 0x11e
framer_offset ticr = 0x120
framer_offset bertcsr0 = 0x121
framer_offset ricr = 0x122
framer_offset bertcsr1 = 0x123
framer_offset lccr0 = 0x124
framer_offset tlcr = 0x125
framer_offset rlacr0 = 0x126
framer_offset rldcr0 = 0x127
framer_offset rlcds = 0x128
framer_offset dder = 0x129
framer_offset lccr1 = 0x12a
framer_offset rlacr1 = 0x12b
framer_offset rldcr1 = 0x12c
framer_offset lccr2 = 0x12d
framer_offset rlacr2 = 0x12e
framer_offset rldcr2 = 0x12f
framer_offset tlcgs = 0x140
framer_offset lcts = 0x141
framer_offset tsprmcr = 0x142
framer_offset dlcr2 = 0x143
framer_offset tdlbcr2 = 0x144
framer_offset lccr3 = 0x146
framer_offset rlacr3 = 0x147
framer_offset rldcr3 = 0x148
framer_offset lccr4 = 0x149
framer_offset rlacr4 = 0x14a
framer_offset rldcr4 = 0x14b
framer_offset lccr5 = 0x14c
framer_offset rlacr5 = 0x14d
framer_offset rldcr5 = 0x14e
framer_offset lccr6 = 0x14f
framer_offset rlacr6 = 0x150
framer_offset rldcr6 = 0x151
framer_offset dlcr3 = 0x153
framer_offset tdlbcr3 = 0x154
framer_offset lccr7 = 0x156
framer_offset rlacr7 = 0x157
framer_offset rldcr7 = 0x158
framer_offset bcr = 0x163
framer_offset boccr = 0x170
framer_offset rfdlr = 0x171
framer_offset rfdlmr1 = 0x172
framer_offset rfdlmr2 = 0x173
framer_offset rfdlmr3 = 0x174
framer_offset tfdlr = 0x175
framer_offset tbcr = 0x176
framer_offset rlcvcu = 0x900
framer_offset rlcvcl = 0x901
framer_offset rfaecu = 0x902
framer_offset rfaecl = 0x903
framer_offset rsefc = 0x904
framer_offset rsbbecu = 0x905
framer_offset rsbbecl = 0x906
framer_offset rsc = 0x909
framer_offset rlfc = 0x90a
framer_offset rcfac = 0x90b
framer_offset lfcsec1 = 0x90c
framer_offset pbecu = 0x90d
framer_offset pbecl = 0x90e
framer_offset tsc = 0x90f
framer_offset ezvcu = 0x910
framer_offset ezvcl = 0x911
framer_offset lfcsec2 = 0x91c
framer_offset lfcsec3 = 0x92c
framer_offset bisr = 0xb00
framer_offset bier = 0xb01
framer_offset aeisr = 0xb02
framer_offset aeier = 0xb03
framer_offset fisr = 0xb04
framer_offset fier = 0xb05
framer_offset dlier1 = 0xb07
framer_offset sbisr = 0xb08
framer_offset sbier = 0xb09
framer_offset rlcisr0 = 0xb0a
framer_offset rlcier0 = 0xb0b
framer_offset exzsr = 0xb0e
framer_offset exzer = 0xb0f
framer_offset ss7er1 = 0xb11
framer_offset rlcisr = 0xb12
framer_offset rlcier = 0xb13
framer_offset rlcisr1 = 0xb14
framer_offset rlcier1 = 0xb15
framer_offset dlier2 = 0xb17
framer_offset ss7er2 = 0xb19
framer_offset rlcisr2 = 0xb1a
framer_offset rlcier2 = 0xb1b
framer_offset rlcisr3 = 0xb1c
framer_offset rlcier3 = 0xb1d
framer_offset rlcisr4 = 0xb1e
framer_offset rlcier4 = 0xb1f
framer_offset rlcisr5 = 0xb20
framer_offset rlcier5 = 0xb21
framer_offset rlcisr6 = 0xb22
framer_offset rlcier6 = 0xb23
framer_offset rlcisr7 = 0xb24
framer_offset rlcier7 = 0xb25
framer_offset dlier3 = 0xb27
framer_offset ss7er3 = 0xb29
framer_offset ciasr = 0xb40
framer_offset ciaier = 0xb41
framer_offset bocisr = 0xb70
framer_offset bocier = 0xb71
framer_offset bocuisr = 0xb74
framer_offset bocuier = 0xb75

-- The accessors of `Channel` in the line interface unit.
pub data LiuRegister : Type 0 where
  liuccr0 liuccr1 liuccr2 liuccr3 liuccier liuccsr liuccisr liuccccr liuccar1 : LiuRegister
  liuccar2 liuccar3 liuccar4 liuccar5 liuccar6 liuccar7 liuccar8 : LiuRegister

unfoldable pub liu_offset : LiuRegister → ℕ
liu_offset liuccr0 = 0x0
liu_offset liuccr1 = 0x1
liu_offset liuccr2 = 0x2
liu_offset liuccr3 = 0x3
liu_offset liuccier = 0x4
liu_offset liuccsr = 0x5
liu_offset liuccisr = 0x6
liu_offset liuccccr = 0x7
liu_offset liuccar1 = 0x8
liu_offset liuccar2 = 0x9
liu_offset liuccar3 = 0xa
liu_offset liuccar4 = 0xb
liu_offset liuccar5 = 0xc
liu_offset liuccar6 = 0xd
liu_offset liuccar7 = 0xe
liu_offset liuccar8 = 0xf

framer_registers : List FramerRegister
framer_registers =
    csr ∷ licr ∷ fsr ∷ agr ∷ smr ∷ tsdlsr ∷ fcr ∷ rsdlsr ∷ rifr ∷ dlcr1 ∷ tdlbcr1 ∷ sbcr ∷ fifolr
    ∷ icr ∷ lapdsr ∷ ciagr ∷ prcr ∷ gccr ∷ ticr ∷ bertcsr0 ∷ ricr ∷ bertcsr1 ∷ lccr0 ∷ tlcr ∷ rlacr0
    ∷ rldcr0 ∷ rlcds ∷ dder ∷ lccr1 ∷ rlacr1 ∷ rldcr1 ∷ lccr2 ∷ rlacr2 ∷ rldcr2 ∷ tlcgs ∷ lcts
    ∷ tsprmcr ∷ dlcr2 ∷ tdlbcr2 ∷ lccr3 ∷ rlacr3 ∷ rldcr3 ∷ lccr4 ∷ rlacr4 ∷ rldcr4 ∷ lccr5 ∷ rlacr5
    ∷ rldcr5 ∷ lccr6 ∷ rlacr6 ∷ rldcr6 ∷ dlcr3 ∷ tdlbcr3 ∷ lccr7 ∷ rlacr7 ∷ rldcr7 ∷ bcr ∷ boccr
    ∷ rfdlr ∷ rfdlmr1 ∷ rfdlmr2 ∷ rfdlmr3 ∷ tfdlr ∷ tbcr ∷ rlcvcu ∷ rlcvcl ∷ rfaecu ∷ rfaecl ∷ rsefc
    ∷ rsbbecu ∷ rsbbecl ∷ rsc ∷ rlfc ∷ rcfac ∷ lfcsec1 ∷ pbecu ∷ pbecl ∷ tsc ∷ ezvcu ∷ ezvcl
    ∷ lfcsec2 ∷ lfcsec3 ∷ bisr ∷ bier ∷ aeisr ∷ aeier ∷ fisr ∷ fier ∷ dlier1 ∷ sbisr ∷ sbier
    ∷ rlcisr0 ∷ rlcier0 ∷ exzsr ∷ exzer ∷ ss7er1 ∷ rlcisr ∷ rlcier ∷ rlcisr1 ∷ rlcier1 ∷ dlier2
    ∷ ss7er2 ∷ rlcisr2 ∷ rlcier2 ∷ rlcisr3 ∷ rlcier3 ∷ rlcisr4 ∷ rlcier4 ∷ rlcisr5 ∷ rlcier5
    ∷ rlcisr6 ∷ rlcier6 ∷ rlcisr7 ∷ rlcier7 ∷ dlier3 ∷ ss7er3 ∷ ciasr ∷ ciaier ∷ bocisr ∷ bocier
    ∷ bocuisr ∷ bocuier ∷ []

liu_registers : List LiuRegister
liu_registers =
    liuccr0 ∷ liuccr1 ∷ liuccr2 ∷ liuccr3 ∷ liuccier ∷ liuccsr ∷ liuccisr ∷ liuccccr ∷ liuccar1
    ∷ liuccar2 ∷ liuccar3 ∷ liuccar4 ∷ liuccar5 ∷ liuccar6 ∷ liuccar7 ∷ liuccar8 ∷ []

find_framer : ℕ → List FramerRegister → Option FramerRegister
find_framer offset [] = none
find_framer offset (r ∷ rs) =
    let rest = find_framer offset rs in if framer_offset r == offset then some r else rest

find_liu : ℕ → List LiuRegister → Option LiuRegister
find_liu offset [] = none
find_liu offset (r ∷ rs) =
    let rest = find_liu offset rs in if liu_offset r == offset then some r else rest

find_framer-framer_offset :
    (r : FramerRegister) → find_framer (framer_offset r) framer_registers ≡ some r
unfolding find_framer framer_offset framer_registers
find_framer-framer_offset csr = refl
find_framer-framer_offset _ = refl

find_liu-liu_offset : (r : LiuRegister) → find_liu (liu_offset r) liu_registers ≡ some r
unfolding find_liu liu_offset liu_registers
find_liu-liu_offset liuccr0 = refl
find_liu-liu_offset _ = refl

-- No two accessors of a channel with a fixed offset share it.
pub framer_offset_injective : (r s : FramerRegister) → framer_offset r ≡ framer_offset s → r ≡ s
framer_offset_injective r s e = cc (
  ap (λ o. find_framer o framer_registers) e,
  find_framer-framer_offset r,
  find_framer-framer_offset s,
)

pub liu_offset_injective : (r s : LiuRegister) → liu_offset r ≡ liu_offset s → r ≡ s
liu_offset_injective r s e =
    cc (ap (λ o. find_liu o liu_registers) e, find_liu-liu_offset r, find_liu-liu_offset s)

-- The offsets fit the page of a channel, and the line interface unit's its row.
pub framer_offset-lt : (r : FramerRegister) → framer_offset r < 0x1000
unfolding framer_offset
framer_offset-lt csr = omega arith
framer_offset-lt _ = omega arith

pub liu_offset-lt : (r : LiuRegister) → liu_offset r < 16
unfolding liu_offset
liu_offset-lt liuccr0 = omega arith
liu_offset-lt _ = omega arith
