-- ===== src/Line/Abcd.antt =====
-- The four signaling bits of a line from its two sources: the signaling array register that an
-- interrupt brings, and the robbed bits of the received frames.
use tedium.Common.{
  ℕ, ◌<◌, ◌≡◌, refl, ◌∙◌, bit_and, ◌==◌, ==_iff, Bool, Option, none, some, all_below,
  all_below_sound, Bool-cases, inl, inr, true,
}
use tedium.Registers.Layout.{position}
use tedium.Registers.Bitfield.{Bitfield, get_field, arithmetic}
use tedium.Registers.Builder.{get_field-arithmetic}
use tedium.Registers.Counters.{rsar_layout}
use tedium.Line.{
  LineStateInterrupt, LineStateRobbedBitState, Report, abcd_of, set_interrupt_state,
  set_robbed_bit_state,
}

abcd_of-arithmetic : (bf : Bitfield) (rsar : ℕ) → abcd_of bf rsar ≡ abcd_of arithmetic rsar
unfolding abcd_of
abcd_of-arithmetic bf rsar =
    rw
      (
        get_field-arithmetic bf rsar_layout "A" rsar,
        get_field-arithmetic bf rsar_layout "B" rsar,
        get_field-arithmetic bf rsar_layout "C" rsar,
        get_field-arithmetic bf rsar_layout "D" rsar,
      )
      refl

abcd_table : all_below 256 (λ rsar. abcd_of arithmetic rsar == bit_and rsar 0x0f) ≡ true
unfolding all_below abcd_of get_field position rsar_layout
abcd_table = refl

-- The bits of the register are its lower half.
pub abcd_of-eq-bit_and :
    (bf : Bitfield) (rsar : ℕ) → rsar < 256 → abcd_of bf rsar ≡ bit_and rsar 0x0f
abcd_of-eq-bit_and bf rsar l =
    abcd_of-arithmetic bf rsar
    ∙ (==_iff _ _).0
        (all_below_sound 256 (λ r. abcd_of arithmetic r == bit_and r 0x0f) rsar abcd_table l)

-- Is the line off hook after the change, if there is one?
abbrev pub change_of : Report → Option Bool
change_of none = none
change_of (some r) = some r.1

-- Two states of one line that agree, and that get the same four bits, one by a register and the
-- other by robbed bits, agree afterwards, report a change together, and say alike whether the line
-- is off hook.
pub set_interrupt_state-set_robbed_bit_state :
    (bf : Bitfield) (i : LineStateInterrupt) (r : LineStateRobbedBitState)
    (timestamp frame_count rsar rbs_state : ℕ)
    → rsar < 256
    → bit_and rsar 0x0f ≡ bit_and rbs_state 0x0f
    → i.abcd ≡ r.abcd
    → ((set_interrupt_state bf i timestamp rsar).0.abcd
        ≡ (set_robbed_bit_state r frame_count rbs_state).0.abcd)
      × (change_of (set_interrupt_state bf i timestamp rsar).1
          ≡ change_of (set_robbed_bit_state r frame_count rbs_state).1)
unfolding set_interrupt_state set_robbed_bit_state
set_interrupt_state-set_robbed_bit_state bf i r timestamp frame_count rsar rbs_state l e f =
    rw (abcd_of-eq-bit_and bf rsar l, e, f)
      (elim (Bool-cases (bit_and rbs_state 0x0f == r.abcd)) [
        | inl g ↦ rw g (refl, refl)
        | inr g ↦ rw g (refl, refl)
      ])
