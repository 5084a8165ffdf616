-- ===== src/TestModes/Script.antt =====
-- What a loopback mode is to change on a channel, as addresses, masks of the bits that are kept, and
-- the new bits.
use tedium.Common.{ℕ, ◌+◌, ◌*◌, List, [], ◌∷◌}
use tedium.Device.Access.Script.{Step, alter, concat_map}
use tedium.Device.Iterators.{timeslots}
use tedium.TestModes.{
  FramerTestMode, LiuTestMode, local_loopback, remote_line_loopback, payload_loopback,
  dual_loopback, analog_loopback, remote_loopback, digital_loopback,
}

-- Robbed bits are not inserted, and the signaling is that of the serial data.
unfoldable pub clear_robbed_bits_script : (channel timeslot : ℕ) → List Step
clear_robbed_bits_script channel timeslot =
    alter (channel * 4096 + 0x340 + timeslot) 0b11111000 0b00000000 ∷ []

-- LB of LICR is bits 5 and 4, CSS of CSR bits 1 and 0.
unfoldable pub framer_mode_script : ℕ → FramerTestMode → List Step
framer_mode_script channel local_loopback =
    alter (channel * 4096 + 0x101) 0b11001111 0b00010000
    ∷ alter (channel * 4096 + 0x100) 0b11111100 0b00000000
    ∷ []
framer_mode_script channel remote_line_loopback =
    alter (channel * 4096 + 0x101) 0b11001111 0b00100000 ∷ []
framer_mode_script channel payload_loopback =
    alter (channel * 4096 + 0x101) 0b11001111 0b00110000
    ∷ alter (channel * 4096 + 0x100) 0b11111100 0b00000000
    ∷ concat_map (clear_robbed_bits_script channel) timeslots

-- LOOP2_n of LIUCCR2 is bits 2 to 0.
abbrev loop2_bits : LiuTestMode → ℕ
loop2_bits dual_loopback = 0b100
loop2_bits analog_loopback = 0b101
loop2_bits remote_loopback = 0b110
loop2_bits digital_loopback = 0b111

unfoldable pub liu_mode_script : ℕ → LiuTestMode → List Step
liu_mode_script channel mode = alter (0x0f00 + channel * 16 + 0x2) 0b11111000 (loop2_bits mode) ∷ []
