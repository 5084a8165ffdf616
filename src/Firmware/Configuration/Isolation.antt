-- ===== src/Firmware/Configuration/Isolation.antt =====
-- What the configuration of a channel and the enabling of its interrupts leave alone.
use tedium.Common.{ℕ, ◌<◌, ◌≡◌, ◌≢◌, refl, range, All-range, List, ◌++◌}
use tedium.Registers.Bitfield.{Bitfield}
use tedium.Device.Access.{Xyz, Action, done}
use tedium.Device.Access.Script.{Step, Does, concat_map}
use tedium.Device.Access.Memory.{
  Memory, play-Leaves, run_to-StaysIn, StaysIn, owner, owner-framer, owner-liu, owner-timeslot,
  append-StaysIn, concat_map-StaysIn,
}
use tedium.Device.Iterators.{All-timeslots}
use tedium.Firmware.Configuration.{configure_channel}
use tedium.Firmware.Configuration.Interrupts.{enable_interrupts}
use tedium.Firmware.Configuration.Sound.{configure_channel-Does}
use tedium.Firmware.Configuration.Enabling.{enable_interrupts-Does}
use tedium.Firmware.Configuration.Script.{
  timeslot_script, block_script, channel_script, buffers_script, clear_script, interrupts_script,
}

module _ (channel : ℕ) (l : channel < 8) where
  timeslot_script-StaysIn :
      (timeslot : ℕ) → timeslot < 24 → StaysIn channel (timeslot_script channel timeslot)
  unfolding timeslot_script
  timeslot_script-StaysIn timeslot t = search owner-timeslot

  block_script-StaysIn : StaysIn channel (block_script channel)
  unfolding block_script
  block_script-StaysIn = search (owner-framer, owner-liu)

  channel_script-StaysIn : StaysIn channel (channel_script channel)
  unfolding channel_script
  channel_script-StaysIn =
      append-StaysIn channel _ _ block_script-StaysIn
        (concat_map-StaysIn channel _ _ (All-timeslots _ timeslot_script-StaysIn))

  buffers_then :
      (xs : List Step)
      → StaysIn channel xs
      → StaysIn channel (concat_map (λ _. buffers_script channel) (range 0 96) ++ xs)
  unfolding buffers_script
  buffers_then xs h =
      append-StaysIn channel _ xs
        (concat_map-StaysIn channel _ _ (All-range _ 0 96 (λ _ _ _. search owner-framer))) h

  clear_script-StaysIn : StaysIn channel (clear_script channel)
  unfolding clear_script
  clear_script-StaysIn =
      let own = owner-framer channel in
      (
        own _ refl,
        (
          own _ refl,
          (own _ refl, (own _ refl, (own _ refl, (own _ refl, buffers_then _ (search depth 10))))),
        ),
      )

  interrupts_script-StaysIn : StaysIn channel (interrupts_script channel)
  unfolding interrupts_script
  interrupts_script-StaysIn = search (owner-framer, owner-liu, clear_script-StaysIn)

module _ {S : Type 0} (bf : Bitfield) (device : Xyz S) (memory : Memory device) where
  -- An action ends, and each register of another channel is as it was.
  abbrev pub LeavesOthers : ℕ → Action S (Unit {0}) → Type 0
  LeavesOthers channel m =
      (s : S)
      → (s' : S) × (m s ≡ done tt s')
        × ((b : ℕ) → owner b ≢ channel → memory.registers s' b ≡ memory.registers s b)

  script-LeavesOthers :
      (channel : ℕ) (m : Action S (Unit {0})) (xs : List Step)
      → Does device m xs
      → StaysIn channel xs
      → LeavesOthers channel m
  script-LeavesOthers channel m xs d h s =
      let (s', e, f) = play-Leaves device memory xs s in
      (s', rw d.plays e, λ b n. rw f (run_to-StaysIn channel xs (memory.registers s) b h n))

  -- On a chip whose registers hold what is written, the configuration of a channel and the enabling
  -- of its interrupts end with success and change no register of another channel, neither in its
  -- page nor in its row of the line interface unit.
  pub configure_channel-LeavesOthers :
      (channel : ℕ)
      → channel < 8
      → LeavesOthers channel (configure_channel bf device channel)
        × LeavesOthers channel (enable_interrupts bf device channel)
  configure_channel-LeavesOthers channel l = (
    script-LeavesOthers channel _ _ (configure_channel-Does bf device channel l)
        (channel_script-StaysIn channel l),
    script-LeavesOthers channel _ _ (enable_interrupts-Does bf device channel l)
        (interrupts_script-StaysIn channel l),
  )
