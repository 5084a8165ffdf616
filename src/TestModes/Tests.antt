-- ===== src/TestModes/Tests.antt =====
-- The loopback modes on a chip that is a memory.
use tedium.Common.{◌≡◌, refl, arith}
use tedium.Registers.Bitfield.{arithmetic}
use tedium.Device.Access.Script.{play}
use tedium.Device.Access.Memory.{ram, run_to, step_to}
use tedium.TestModes.{
  payload_loopback, local_loopback, analog_loopback, set_test_mode_framer, set_test_mode_liu,
}
use tedium.TestModes.Script.{framer_mode_script, liu_mode_script}
use tedium.TestModes.Sound.{set_test_mode-play}

-- The other bits of LICR are kept.
licr_after : run_to (framer_mode_script 1 local_loopback) (λ _. 0b11110011) 0x1101 ≡ 0b11010011
unfolding run_to step_to framer_mode_script
licr_after = refl

set_test_mode-play_example :
    (set_test_mode_framer arithmetic ram 5 payload_loopback
      ≡ play ram (framer_mode_script 5 payload_loopback))
    × (set_test_mode_liu arithmetic ram 5 analog_loopback
        ≡ play ram (liu_mode_script 5 analog_loopback))
set_test_mode-play_example =
    set_test_mode-play arithmetic ram 5 (omega arith) payload_loopback analog_loopback
