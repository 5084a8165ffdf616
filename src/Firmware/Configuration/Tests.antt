-- ===== src/Firmware/Configuration/Tests.antt =====
-- The configuration of a chip that is a memory.
use tedium.Common.{◌≡◌, refl, arith}
use tedium.Registers.Bitfield.{arithmetic}
use tedium.Device.Access.Script.{play}
use tedium.Device.Access.Memory.{Registers, ram, ram_memory, run_to, step_to}
use tedium.Firmware.Configuration.{configure_channel, configure}
use tedium.Firmware.Configuration.Interrupts.{enable_interrupts}
use tedium.Firmware.Configuration.Script.{configuration_script, interrupts_script, block_script}
use tedium.Firmware.Configuration.Sound.{configure-play}
use tedium.Firmware.Configuration.Enabling.{enable_interrupts-play}
use tedium.Firmware.Configuration.Isolation.{LeavesOthers, configure_channel-LeavesOthers}

abbrev blank : Registers
blank = λ _. 0xff

-- The channel transmits by the external clock, in T1 mode, with the loss of the clock detected.
csr_after : run_to (block_script 3) blank 0x3100 ≡ 0x51
unfolding run_to step_to block_script
csr_after = refl

-- A modified register keeps the bits that are not set.
prcr_after : run_to (block_script 3) blank 0x311d ≡ 0x42
unfolding run_to step_to block_script
prcr_after = refl

configure-play_example : configure arithmetic ram ≡ play ram configuration_script
configure-play_example = configure-play arithmetic ram

enable_interrupts-play_example : enable_interrupts arithmetic ram 7 ≡ play ram (interrupts_script 7)
enable_interrupts-play_example = enable_interrupts-play arithmetic ram 7 (omega arith)

configure_channel-LeavesOthers_example :
    LeavesOthers arithmetic ram ram_memory 2 (configure_channel arithmetic ram 2)
    × LeavesOthers arithmetic ram ram_memory 2 (enable_interrupts arithmetic ram 2)
configure_channel-LeavesOthers_example =
    configure_channel-LeavesOthers arithmetic ram ram_memory 2 (omega arith)
