-- ===== src/Firmware/Report/Kept.antt =====
-- The steps of the report on a chip whose registers keep their values.
use tedium.Common.{
  ℕ, ◌+◌, ◌*◌, ◌<◌, ◌≡◌, refl, Bool-cases, List, [], ◌∷◌, ◌++◌, ◌==◌, arith, All, inl, inr, lt→ltb,
}
use mathlib.Core.List.{map}
use tedium.Common.Outcome.{Outcome, ok}
use tedium.Registers.Bitfield.{Bitfield}
use tedium.Device.Addressing.Laws.{channel_nxxx_lem}
use tedium.Device.Accessors.{access_framer}
use tedium.Interrupt.Wire.{optional}
use tedium.Firmware.Effect.{Effect, ◌>>=◌, lift, write_fifo, for_each, when_set, read_register}
use tedium.Firmware.Report.{forward}
use tedium.Firmware.Report.Snapshot.{keeping, flagged, at}

-- The run ends with the value `v` and puts `out`.
abbrev pub Does : {A : Type 0} → Effect (Unit {0}) A → A → List ℕ → Type 0
Does m v out = m tt ≡ ok (v, out, tt)

pub then-Does :
    {A B : Type 0} (m : Effect (Unit {0}) A) (k : A → Effect (Unit {0}) B) (v : A) (w : B)
    (out more : List ℕ)
    → Does m v out
    → Does (k v) w more
    → Does (m >>= k) w (out ++ more)
unfolding ◌>>=◌
then-Does m k v w out more e f = rw (e, f) refl

pub for_each-Does :
    (xs : List ℕ) (body : ℕ → Effect (Unit {0}) (Unit {0})) (byte : ℕ → ℕ)
    → All (λ x. Does (body x) tt (byte x ∷ [])) xs
    → Does (for_each xs body) tt (map byte xs)
unfolding for_each
for_each-Does [] body byte h = refl
for_each-Does (x ∷ xs) body byte h =
    then-Does (body x) _ tt tt (byte x ∷ []) (map byte xs) h.0 (for_each-Does xs body byte h.1)

pub when_set-Does :
    {A : Type 0} (flag : ℕ) (m : Effect (Unit {0}) (Unit {0})) (put : A → List ℕ) (a : A)
    → Does m tt (put a)
    → Does (when_set flag m) tt (optional put (flagged flag a))
unfolding when_set
when_set-Does flag m put a d = elim (Bool-cases (flag == 0)) [ inl e ↦ rw e refl | inr e ↦ rw e d ]

pub write-Does : (b : ℕ) → Does (write_fifo b) tt (b ∷ [])
unfolding write_fifo
write-Does b = refl

module _ (bf : Bitfield) (memory : ℕ → ℕ) (c : ℕ) (h : c < 8) where
  pub access_framer-at : (o : ℕ) → o < 0x1000 → access_framer c o ≡ ok (c * 4096 + o)
  unfolding access_framer
  access_framer-at o k = ground (arith, channel_nxxx_lem c o)

  pub read-Does :
      (o : ℕ) (address : Outcome ℕ)
      → o < 0x1000
      → address ≡ access_framer c o
      → Does (read_register (keeping memory) address) (at bf memory c o) []
  unfolding read_register lift ◌>>=◌
  read-Does o address k same =
      rw (same, access_framer-at o k, lt→ltb (c * 4096 + o) 0x10000 (omega (arith, h, k))) refl

  pub forward-Does :
      (o : ℕ) (address : Outcome ℕ)
      → o < 0x1000
      → address ≡ access_framer c o
      → Does (forward (keeping memory) address) tt (at bf memory c o ∷ [])
  unfolding forward
  forward-Does o address k same =
      then-Does (read_register (keeping memory) address) write_fifo (at bf memory c o) tt [] _
        (read-Does o address k same) (write-Does (at bf memory c o))
