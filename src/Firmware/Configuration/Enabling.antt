-- ===== src/Firmware/Configuration/Enabling.antt =====
-- Enabling the interrupts of a channel does to any chip what its table says.
use tedium.Common.{ℕ, ◌<◌, ◌≡◌, ◌++◌, List, range, All-range}
use tedium.Registers.Layout.{position}
use tedium.Registers.Bitfield.{Bitfield, with_field}
use tedium.Registers.Builder.{with_fields, fits, keeps}
use tedium.Registers.Counters.{
  aeier_layout, bier_layout, dlierx_layout, exzer_layout, fier_layout, rlcier_layout, sbier_layout,
  ss7erx_layout,
}
use tedium.Registers.Framing.{agr_layout, ciagr_layout, icr_layout}
use tedium.Registers.Lines.{bocier_layout, bocuier_layout, ciaier_layout, liuccier_layout}
use tedium.Device.Offsets.{framer_offset, liu_offset}
use tedium.Device.Accessors
use tedium.Device.Accessors.{dlsr, rdlbcr, ss7sr, lapdbcr0, lapdbcr1}
use tedium.Device.Access.{Action, Xyz, ◌>>◌, for_each}
use tedium.Device.Access.Script.{Step, Does, play, concat_map, append-Does, for_each-Does}
use tedium.Device.Access.Typed.{read_only}
use tedium.Device.Access.Steps.{accesses}
use tedium.Firmware.Configuration.Interrupts.{clear_interrupts, enable_interrupts}
use tedium.Firmware.Configuration.Script.{buffers_script, clear_script, interrupts_script}

module _ {S : Type 0} (bf : Bitfield) (device : Xyz S) (channel : ℕ) (l : channel < 8) where
  drain_once-Does :
      Does device
        (read_only device (Accessors.lapdbcr0 channel 0)
          >> read_only device (Accessors.lapdbcr1 channel 0))
        (buffers_script channel)
  unfolding lapdbcr0 lapdbcr1 buffers_script
  drain_once-Does = search accesses

  drain-Does :
      (k : Action S (Unit {0})) (xs : List Step)
      → Does device k xs
      → Does device
          (for_each (range 0 96) (λ _.
              read_only device (Accessors.lapdbcr0 channel 0)
              >> read_only device (Accessors.lapdbcr1 channel 0))
            >> k)
          (concat_map (λ _. buffers_script channel) (range 0 96) ++ xs)
  drain-Does k xs d =
      append-Does device _ k _ xs
        (for_each-Does device (range 0 96) _ _ (All-range _ 0 96 (λ _ _ _. drain_once-Does))) d

  clear_interrupts-Does : Does device (clear_interrupts device channel) (clear_script channel)
  unfolding clear_interrupts clear_script dlsr rdlbcr ss7sr framer_offset
  clear_interrupts-Does = search (accesses, drain-Does) depth 20

  pub enable_interrupts-Does :
      Does device (enable_interrupts bf device channel) (interrupts_script channel)
  unfolding enable_interrupts interrupts_script framer_offset liu_offset fits with_fields with_field
      position keeps aeier_layout agr_layout bier_layout bocier_layout bocuier_layout ciagr_layout
      ciaier_layout dlierx_layout exzer_layout fier_layout icr_layout liuccier_layout rlcier_layout
      sbier_layout ss7erx_layout
  enable_interrupts-Does = search (accesses, clear_interrupts-Does) depth 20

  -- Whatever the chip answers, the accesses that enable a channel's interrupts and clear what is
  -- pending are those of its table, in order and up to the first that the chip refuses, without a
  -- panic.
  pub enable_interrupts-play :
      enable_interrupts bf device channel ≡ play device (interrupts_script channel)
  enable_interrupts-play = enable_interrupts-Does.plays
