-- ===== src/Firmware/Configuration/Sound.antt =====
-- The configuration does to any chip what its table says, step by step and up to the first error,
-- and never panics on its own account.
use tedium.Common.{ℕ, ◌<◌, ◌≡◌, refl}
use tedium.Registers.Layout.{position}
use tedium.Registers.Bitfield.{Bitfield, with_field}
use tedium.Registers.Builder.{with_fields, fits, keeps}
use tedium.Registers.Counters.{rsctr_layout, rssr_layout, rucr_layout}
use tedium.Registers.Framing.{
  csr_layout, dlcr_layout, fcr_layout, fsr_layout, licr_layout, prcr_layout, ricr_layout,
  sbcr_layout, smr_layout, ticr_layout,
}
use tedium.Registers.Lines.{liuccr0_layout, liuccr1_layout, liuccr2_layout, liugcr4_layout}
use tedium.Registers.Loopback.{rccr_layout, tccr_layout, tscr_layout, tsprmcr_layout, tucr_layout}
use tedium.Device.Offsets.{framer_offset, liu_offset}
use tedium.Device.Accessors.{block_offset}
use tedium.Device.Globals
use tedium.Device.Globals.{global_address}
use tedium.Device.Access.{Xyz, for_each}
use tedium.Device.Access.Script.{play, Does, then-Does, end-Does, for_each-Does, concat_map}
use tedium.Device.Access.Steps.{accesses, write_global-DoesStep}
use tedium.Device.Iterators.{timeslots, channels, All-timeslots, All-channels}
use tedium.Firmware.Configuration.{configure_timeslot, configure_channel, configure}
use tedium.Firmware.Configuration.Script.{
  timeslot_script, block_script, channel_script, configuration_script,
}

module _ {S : Type 0} (bf : Bitfield) (device : Xyz S) where
  configure_timeslot-Does :
      (channel timeslot : ℕ)
      → channel < 8
      → timeslot < 24
      → Does device
          (configure_timeslot bf device channel timeslot)
          (timeslot_script channel timeslot)
  unfolding configure_timeslot timeslot_script block_offset fits with_fields with_field position
      rccr_layout rsctr_layout rssr_layout rucr_layout tccr_layout tscr_layout tucr_layout
  configure_timeslot-Does channel timeslot l t = search accesses depth 10

  timeslots-Does :
      (channel : ℕ)
      → channel < 8
      → Does device
          (for_each timeslots (configure_timeslot bf device channel))
          (concat_map (timeslot_script channel) timeslots)
  timeslots-Does channel l =
      for_each-Does device timeslots (configure_timeslot bf device channel)
        (timeslot_script channel) (All-timeslots _ (λ t h. configure_timeslot-Does channel t l h))

  pub configure_channel-Does :
      (channel : ℕ)
      → channel < 8
      → Does device (configure_channel bf device channel) (channel_script channel)
  unfolding configure_channel channel_script block_script framer_offset liu_offset fits with_fields
      with_field position keeps csr_layout dlcr_layout fcr_layout fsr_layout licr_layout
      liuccr0_layout liuccr1_layout liuccr2_layout prcr_layout ricr_layout sbcr_layout smr_layout
      ticr_layout tsprmcr_layout
  configure_channel-Does channel l = search (accesses, timeslots-Does) depth 18

  configure-Does : Does device (configure bf device) configuration_script
  unfolding configure configuration_script fits with_fields with_field position liugcr4_layout
      global_address
  configure-Does =
      then-Does device _ _ _ _
        (write_global-DoesStep bf device 9 _ _ Globals.liugcr4 _ refl refl refl refl)
        (end-Does device _ _ (
          for_each-Does device channels (configure_channel bf device) channel_script
            (All-channels _ configure_channel-Does)))

  -- Whatever the chip answers, the configuration is the accesses of its table, in order and up to
  -- the first that the chip refuses: no assertion on an address or an index fails, and no value is
  -- too large for its field.
  pub configure-play : configure bf device ≡ play device configuration_script
  configure-play = configure-Does.plays
