-- ===== src/TestModes.antt =====
-- The loopback modes of a channel (tedium/tools/tedium-tool/src/framer/test.rs), over the accesses
-- of the tool's copy of the register crate (framer/device.rs), which fail where USB does.
pub mod Script
pub mod Sound
mod Tests
use tedium.Common.{ℕ, [], ◌∷◌}
use tedium.Registers.Bitfield.{Bitfield}
use tedium.Registers.Framing.{csr_layout, licr_layout}
use tedium.Registers.Loopback.{tscr_layout}
use tedium.Registers.Lines.{liuccr2_layout}
use tedium.Registers.Values.{
  value, FramerLoopback, ClockSource, ChannelSignalingSource, LiuLoopback, framer_loopback,
  clock_source, channel_signaling_source, liu_loopback,
}
use tedium.Device.Offsets
use tedium.Device.Accessors
use tedium.Device.Iterators.{timeslots}
use tedium.Device.Access.{Action, Xyz, ◌>>=◌, ◌>>◌, pure, for_each}
use tedium.Device.Access.Typed.{modify_framer, modify_liu, modify_timeslot}

pub data FramerTestMode : Type 0 where
  local_loopback remote_line_loopback payload_loopback : FramerTestMode

pub data LiuTestMode : Type 0 where
  dual_loopback analog_loopback remote_loopback digital_loopback : LiuTestMode

module _ {S : Type 0} (bf : Bitfield) (device : Xyz S) (channel : ℕ) where
  pub set_test_mode_framer_local_loopback : Action S (Unit {0})
  set_test_mode_framer_local_loopback = do
    modify_framer bf device channel Offsets.licr licr_layout
        (("LB", value FramerLoopback.local) ∷ [])
    modify_framer bf device channel Offsets.csr csr_layout (("CSS", value ClockSource.loop) ∷ [])

  pub set_test_mode_framer_remote_line_loopback : Action S (Unit {0})
  set_test_mode_framer_remote_line_loopback =
      modify_framer bf device channel Offsets.licr licr_layout
        (("LB", value FramerLoopback.far_end_remote_line) ∷ [])

  -- The body of the loop of the payload loopback.
  pub clear_robbed_bits : ℕ → Action S (Unit {0})
  clear_robbed_bits timeslot =
      modify_timeslot bf device channel timeslot Accessors.tscr tscr_layout
        (("Rob_Enb", 0) ∷ ("TxSIGSRC", value ChannelSignalingSource.pcm_data) ∷ [])

  pub set_test_mode_framer_payload_loopback : Action S (Unit {0})
  set_test_mode_framer_payload_loopback = do
    modify_framer bf device channel Offsets.licr licr_layout
        (("LB", value FramerLoopback.payload) ∷ [])
    modify_framer bf device channel Offsets.csr csr_layout (("CSS", value ClockSource.loop) ∷ [])
    for_each timeslots clear_robbed_bits
    pure tt

  unfoldable pub set_test_mode_framer : FramerTestMode → Action S (Unit {0})
  unfolding set_test_mode_framer_local_loopback set_test_mode_framer_remote_line_loopback
      set_test_mode_framer_payload_loopback
  set_test_mode_framer local_loopback = set_test_mode_framer_local_loopback
  set_test_mode_framer remote_line_loopback = set_test_mode_framer_remote_line_loopback
  set_test_mode_framer payload_loopback = set_test_mode_framer_payload_loopback

  pub set_test_mode_liu_dual_loopback : Action S (Unit {0})
  set_test_mode_liu_dual_loopback =
      modify_liu bf device channel Offsets.liuccr2 liuccr2_layout
        (("LOOP2_n", value LiuLoopback.dual) ∷ [])

  pub set_test_mode_liu_analog_loopback : Action S (Unit {0})
  set_test_mode_liu_analog_loopback =
      modify_liu bf device channel Offsets.liuccr2 liuccr2_layout
        (("LOOP2_n", value LiuLoopback.analog) ∷ [])

  pub set_test_mode_liu_remote_loopback : Action S (Unit {0})
  set_test_mode_liu_remote_loopback =
      modify_liu bf device channel Offsets.liuccr2 liuccr2_layout
        (("LOOP2_n", value LiuLoopback.remote) ∷ [])

  pub set_test_mode_liu_digital_loopback : Action S (Unit {0})
  set_test_mode_liu_digital_loopback =
      modify_liu bf device channel Offsets.liuccr2 liuccr2_layout
        (("LOOP2_n", value LiuLoopback.digital) ∷ [])

  unfoldable pub set_test_mode_liu : LiuTestMode → Action S (Unit {0})
  unfolding set_test_mode_liu_dual_loopback set_test_mode_liu_analog_loopback
      set_test_mode_liu_remote_loopback set_test_mode_liu_digital_loopback
  set_test_mode_liu dual_loopback = set_test_mode_liu_dual_loopback
  set_test_mode_liu analog_loopback = set_test_mode_liu_analog_loopback
  set_test_mode_liu remote_loopback = set_test_mode_liu_remote_loopback
  set_test_mode_liu digital_loopback = set_test_mode_liu_digital_loopback
