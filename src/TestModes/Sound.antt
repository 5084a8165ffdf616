-- ===== src/TestModes/Sound.antt =====
-- Each loopback mode changes the bits of its table and no other.
use tedium.Common.{ℕ, ◌<◌, ◌≡◌}
use tedium.Registers.Layout.{position}
use tedium.Registers.Bitfield.{Bitfield, with_field}
use tedium.Registers.Builder.{with_fields, fits, keeps}
use tedium.Registers.Framing.{csr_layout, licr_layout}
use tedium.Registers.Loopback.{tscr_layout}
use tedium.Registers.Lines.{liuccr2_layout}
use tedium.Device.Offsets.{framer_offset, liu_offset}
use tedium.Device.Accessors.{block_offset}
use tedium.Device.Access.{Xyz, ◌>>◌, pure, for_each}
use tedium.Device.Access.Script.{Does, play, concat_map, for_each-Does, end-Does}
use tedium.Device.Access.Steps.{accesses}
use tedium.Device.Iterators.{timeslots, All-timeslots}
use tedium.TestModes.{
  FramerTestMode, LiuTestMode, local_loopback, remote_line_loopback, payload_loopback,
  dual_loopback, analog_loopback, remote_loopback, digital_loopback, set_test_mode_framer,
  set_test_mode_liu, clear_robbed_bits, set_test_mode_framer_payload_loopback,
}
use tedium.TestModes.Script.{clear_robbed_bits_script, framer_mode_script, liu_mode_script}

module _ {S : Type 0} (bf : Bitfield) (device : Xyz S) (channel : ℕ) (l : channel < 8) where
  set_test_mode_liu-Does :
      (mode : LiuTestMode)
      → Does device (set_test_mode_liu bf device channel mode) (liu_mode_script channel mode)
  unfolding set_test_mode_liu liu_mode_script liu_offset fits with_fields with_field position keeps
      liuccr2_layout
  set_test_mode_liu-Does dual_loopback = search accesses
  set_test_mode_liu-Does analog_loopback = search accesses
  set_test_mode_liu-Does remote_loopback = search accesses
  set_test_mode_liu-Does digital_loopback = search accesses

  timeslots-Does :
      Does device
        (for_each timeslots (clear_robbed_bits bf device channel) >> pure tt)
        (concat_map (clear_robbed_bits_script channel) timeslots)
  unfolding clear_robbed_bits clear_robbed_bits_script block_offset fits with_fields with_field
      position keeps tscr_layout
  timeslots-Does =
      end-Does device _ _
        (for_each-Does device timeslots _ _ (All-timeslots _ (λ t h. search accesses)))

  set_test_mode_framer-Does :
      (mode : FramerTestMode)
      → Does device (set_test_mode_framer bf device channel mode) (framer_mode_script channel mode)
  unfolding set_test_mode_framer set_test_mode_framer_payload_loopback framer_mode_script
      framer_offset fits with_fields with_field position keeps csr_layout licr_layout
  set_test_mode_framer-Does local_loopback = search accesses
  set_test_mode_framer-Does remote_line_loopback = search accesses
  set_test_mode_framer-Does payload_loopback = search (accesses, timeslots-Does)

  -- Each loopback mode of the framer and of the line interface unit changes the bits of its table
  -- on its channel and keeps all others, whatever the registers hold, up to the first access that
  -- fails.
  pub set_test_mode-play :
      (mode : FramerTestMode) (mode' : LiuTestMode)
      → (set_test_mode_framer bf device channel mode
          ≡ play device (framer_mode_script channel mode))
        × (set_test_mode_liu bf device channel mode' ≡ play device (liu_mode_script channel mode'))
  set_test_mode-play mode mode' =
      ((set_test_mode_framer-Does mode).plays, (set_test_mode_liu-Does mode').plays)
