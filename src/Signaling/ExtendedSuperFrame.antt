-- ===== src/Signaling/ExtendedSuperFrame.antt =====
-- The bits of an extended superframe's framing channel (`ExtendedSuperFrameState` of
-- tedium/tools/tedium-tool/src/framer/audio.rs).
use tedium.Common.{
  ◌∙◌, ℕ, ◌-◌, ◌*◌, ◌^◌, ◌≡◌, refl, Bool, false, ◌&&◌, ◌==◌, leb, u32, bit_and, bit_or, List, [],
  ◌∷◌, arith, if◌then◌else◌,
}
use tedium.Signaling.{InternalFrame, wrapping_sub}

pub record ExtendedSuperFrameState : Type 0 where
  pub superframe_frame_count : ℕ
  pub framing_bits : ℕ
  pub crc_bits : ℕ
  pub fdl_bits : ℕ
  pub bits_collected : ℕ

abbrev pub from_timestamp : ℕ → ExtendedSuperFrameState
from_timestamp superframe_frame_count = record {
  superframe_frame_count = superframe_frame_count;
  framing_bits = 0;
  crc_bits = 0;
  fdl_bits = 0;
  bits_collected = 0;
}

-- `(bits << 1) | mf_bit`.
abbrev shift_in : ℕ → ℕ → ℕ
shift_in bits mf_bit = bit_or (u32 (bits * 2)) mf_bit

-- The `match` on `frame_in_superframe & 3`, which is below 4.
unfoldable collect : ExtendedSuperFrameState → ℕ → ℕ → ExtendedSuperFrameState
collect self mf_phase mf_bit = record {
  superframe_frame_count = self.superframe_frame_count;
  framing_bits = if mf_phase == 3 then shift_in self.framing_bits mf_bit else self.framing_bits;
  crc_bits = if mf_phase == 1 then shift_in self.crc_bits mf_bit else self.crc_bits;
  fdl_bits =
      if mf_phase == 0
      then shift_in self.fdl_bits mf_bit
      else if mf_phase == 2
      then shift_in self.fdl_bits mf_bit
      else self.fdl_bits;
  bits_collected = self.bits_collected;
}

pub process_frame : ExtendedSuperFrameState → InternalFrame → Bool → Bool × ExtendedSuperFrameState
process_frame self frame mf =
    let frame_in_superframe = wrapping_sub frame.frame_count self.superframe_frame_count in
    let next = collect self (bit_and frame_in_superframe 3) (if mf then 1 else 0) in
    if leb 24 frame_in_superframe
    then (false, self)
    else ((frame_in_superframe == 23) && (next.bits_collected == 2 ^ 23 - 1), next)

-- The state after some frames, each with its framing bit.
pub run : ExtendedSuperFrameState → List (InternalFrame × Bool) → ExtendedSuperFrameState
run self [] = self
run self ((frame, mf) ∷ rest) = run (process_frame self frame mf).1 rest

process_frame-bits_collected :
    (self : ExtendedSuperFrameState) (frame : InternalFrame) (mf : Bool)
    → (process_frame self frame mf).1.bits_collected ≡ self.bits_collected
unfolding process_frame collect
process_frame-bits_collected self frame mf = ground arith

run-bits_collected :
    (frames : List (InternalFrame × Bool)) (self : ExtendedSuperFrameState)
    → (run self frames).bits_collected ≡ self.bits_collected
unfolding run
run-bits_collected [] self = refl
run-bits_collected ((frame, mf) ∷ rest) self =
    run-bits_collected rest (process_frame self frame mf).1
    ∙ process_frame-bits_collected self frame mf

-- Whatever frames have been seen since a superframe began, no frame completes it: nothing counts
-- the bits that were collected.
pub process_frame-incomplete :
    (start : ℕ) (frames : List (InternalFrame × Bool)) (frame : InternalFrame) (mf : Bool)
    → (process_frame (run (from_timestamp start) frames) frame mf).0 ≡ false
unfolding process_frame collect
process_frame-incomplete start frames frame mf =
    ground (arith, run-bits_collected frames (from_timestamp start))
