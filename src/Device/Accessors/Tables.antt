-- ===== src/Device/Accessors/Tables.antt =====
-- The accessors with an index: on each channel, each index of the table reaches a register.
use tedium.Common.{
  ℕ, zero, suc, ◌+◌, ◌*◌, ◌<◌, ◌≡◌, refl, List, [], ◌∷◌, length, get_elem?, some, All, arith,
  lt→ltb,
}
use tedium.Common.Outcome.{Outcome, ok}
use tedium.Device.Addressing.Laws.{channel_nxxx_lem}
use tedium.Device.Accessors.{
  access_framer, access_map, rdlbcr_map, rlcisr_x_map, dlsr_map, ss7sr_map, rdlbcr, rlcisr_x, dlsr,
  ss7sr, rsar_x, lapdbcr0, lapdbcr1,
}

-- The register is there, at an address of 16 bits.
abbrev pub Reaches : Outcome ℕ → Type 0
Reaches o = (a : ℕ) × (o ≡ ok a) × (a < 0x10000)

pub access_framer-Reaches : (c o : ℕ) → c < 8 → o < 0x1000 → Reaches (access_framer c o)
unfolding access_framer
access_framer-Reaches c o h k = (c * 4096 + o, ground (arith, channel_nxxx_lem c o), omega arith)

below :
    (table : List ℕ) (i : ℕ)
    → All (λ o. o < 0x1000) table
    → i < length table
    → (o : ℕ) × (get_elem? table i ≡ some o) × (o < 0x1000)
below [] i h k = absurd (omega arith)
below (o ∷ os) zero (h, hs) k = (o, refl, h)
below (o ∷ os) (suc i) (h, hs) k = below os i hs (omega arith)

access_map-Reaches :
    (table : List ℕ) (c i : ℕ)
    → c < 8
    → All (λ o. o < 0x1000) table
    → i < length table
    → Reaches (access_map table c i)
access_map-Reaches table c i h small k =
    let (o, e, l) = below table i small k in
    let (a, f, b) = access_framer-Reaches c o h l in (a, rw (lt→ltb i (length table) k, e) f, b)

module _ (c : ℕ) (h : c < 8) where
  pub rdlbcr-Reaches : (i : ℕ) → i < 3 → Reaches (rdlbcr c i)
  unfolding rdlbcr
  rdlbcr-Reaches i k = access_map-Reaches rdlbcr_map c i h (omega arith) k

  pub rlcisr_x-Reaches : (i : ℕ) → i < 8 → Reaches (rlcisr_x c i)
  unfolding rlcisr_x
  rlcisr_x-Reaches i k = access_map-Reaches rlcisr_x_map c i h (omega arith) k

  pub dlsr-Reaches : (i : ℕ) → i < 3 → Reaches (dlsr c i)
  unfolding dlsr
  dlsr-Reaches i k = access_map-Reaches dlsr_map c i h (omega arith) k

  pub ss7sr-Reaches : (i : ℕ) → i < 3 → Reaches (ss7sr c i)
  unfolding ss7sr
  ss7sr-Reaches i k = access_map-Reaches ss7sr_map c i h (omega arith) k

  pub rsar_x-Reaches : (i : ℕ) → i < 24 → Reaches (rsar_x c i)
  unfolding rsar_x
  rsar_x-Reaches i k =
      let (a, e, b) = access_framer-Reaches c (0x500 + i) h (omega arith) in
      (a, rw (lt→ltb i 24 k) e, b)

  pub lapdbcr0-Reaches : (i : ℕ) → i < 96 → Reaches (lapdbcr0 c i)
  unfolding lapdbcr0
  lapdbcr0-Reaches i k =
      let (a, e, b) = access_framer-Reaches c (0x600 + i) h (omega arith) in
      (a, rw (lt→ltb i 96 k) e, b)

  pub lapdbcr1-Reaches : (i : ℕ) → i < 96 → Reaches (lapdbcr1 c i)
  unfolding lapdbcr1
  lapdbcr1-Reaches i k =
      let (a, e, b) = access_framer-Reaches c (0x700 + i) h (omega arith) in
      (a, rw (lt→ltb i 96 k) e, b)
