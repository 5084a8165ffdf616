-- ===== src/Firmware/Configuration/Script.antt =====
-- What the configuration is to do to the chip, as addresses and bytes: the table that a reader of
-- the data sheet checks. `store` writes a byte, `alter` keeps the bits of the first mask and sets
-- the others to those of the second.
use tedium.Common.{ℕ, ◌+◌, ◌*◌, List, [], ◌∷◌, ◌++◌, range}
use tedium.Device.Access.Script.{Step, store, alter, poll, concat_map}
use tedium.Device.Iterators.{timeslots, channels}

unfoldable pub timeslot_script : (channel timeslot : ℕ) → List Step
timeslot_script channel timeslot =
    store (channel * 4096 + 0x300 + timeslot) 0b10000000
    ∷ store (channel * 4096 + 0x320 + timeslot) 0b00010111
    ∷ store (channel * 4096 + 0x340 + timeslot) 0b01010101
    ∷ store (channel * 4096 + 0x360 + timeslot) 0b10000000
    ∷ store (channel * 4096 + 0x380 + timeslot) 0b11111111
    ∷ store (channel * 4096 + 0x3a0 + timeslot) 0b00010101
    ∷ store (channel * 4096 + 0x3c0 + timeslot) 0b00000000
    ∷ []

-- The registers of the framer block and of the line interface unit.
unfoldable pub block_script : ℕ → List Step
block_script channel =
    store (channel * 4096 + 0x100) 0b01010001
    ∷ store (channel * 4096 + 0x101) 0b00000000
    ∷ store (channel * 4096 + 0x107) 0b10010000
    ∷ store (channel * 4096 + 0x109) 0b00000000
    ∷ store (channel * 4096 + 0x10b) 0b01010101
    ∷ alter (channel * 4096 + 0x113) 0b00000000 0b00000001
    ∷ alter (channel * 4096 + 0x142) 0b00000000 0b00000000
    ∷ alter (channel * 4096 + 0x11d) 0b01000000 0b00000010
    ∷ store (channel * 4096 + 0x116) 0b00000101
    ∷ store (channel * 4096 + 0x120) 0b00000000
    ∷ store (channel * 4096 + 0x122) 0b00010000
    ∷ store (0x0f00 + channel * 16 + 0x0) 0b00101000
    ∷ store (0x0f00 + channel * 16 + 0x1) 0b11001100
    ∷ store (0x0f00 + channel * 16 + 0x2) 0b00001000
    ∷ []

unfoldable pub channel_script : ℕ → List Step
channel_script channel = block_script channel ++ concat_map (timeslot_script channel) timeslots

-- The 16.384 MHz clock, and the eight channels in order.
unfoldable pub configuration_script : List Step
configuration_script = store 0x0fe9 0b00001100 ∷ concat_map channel_script channels

-- One byte of each receive buffer.
unfoldable pub buffers_script : ℕ → List Step
buffers_script channel = poll (channel * 4096 + 0x600) ∷ poll (channel * 4096 + 0x700) ∷ []

-- The pending HDLC data is read off, and each status that is cleared by a read is read.
unfoldable pub clear_script : ℕ → List Step
clear_script channel =
    poll (channel * 4096 + 0xb06)
      ∷ poll (channel * 4096 + 0xb16)
      ∷ poll (channel * 4096 + 0xb26)
      ∷ poll (channel * 4096 + 0x115)
      ∷ poll (channel * 4096 + 0x145)
      ∷ poll (channel * 4096 + 0x155)
      ∷ concat_map (λ _. buffers_script channel) (range 0 96)
    ++ (poll (channel * 4096 + 0xb10)
        ∷ poll (channel * 4096 + 0xb18)
        ∷ poll (channel * 4096 + 0xb28)
        ∷ poll (channel * 4096 + 0xb08)
        ∷ poll (channel * 4096 + 0xb02)
        ∷ poll (channel * 4096 + 0xb0e)
        ∷ poll (channel * 4096 + 0xb40)
        ∷ poll (channel * 4096 + 0xb04)
        ∷ [])

-- Interrupts are off while their sources are set up.
unfoldable pub interrupts_script : ℕ → List Step
interrupts_script channel =
    store (channel * 4096 + 0xb01) 0b00000000
    ∷ alter (channel * 4096 + 0x108) 0b11110000 0b00000001
    ∷ alter (channel * 4096 + 0x108) 0b00001111 0b10010000
    ∷ alter (channel * 4096 + 0x11c) 0b11111100 0b00000010
    ∷ alter (channel * 4096 + 0x11a) 0b11111000 0b00000001
    ∷ alter (channel * 4096 + 0xb01) 0b10000000 0b00001111
    ∷ alter (channel * 4096 + 0xb03) 0b11110000 0b00001111
    ∷ alter (channel * 4096 + 0xb05) 0b01000000 0b10111111
    ∷ alter (channel * 4096 + 0xb07) 0b10000010 0b00001000
    ∷ alter (channel * 4096 + 0xb09) 0b00011000 0b11100111
    ∷ alter (channel * 4096 + 0xb0f) 0b11111110 0b00000001
    ∷ alter (channel * 4096 + 0xb11) 0b11111110 0b00000000
    ∷ alter (channel * 4096 + 0xb13) 0b11110111 0b00000000
    ∷ alter (channel * 4096 + 0xb41) 0b11111100 0b00000000
    ∷ alter (channel * 4096 + 0xb71) 0b00000000 0b00000000
    ∷ alter (channel * 4096 + 0xb75) 0b10111111 0b00000000
    ∷ alter (0x0f00 + channel * 16 + 0x4) 0b10000000 0b00000000
    ∷ clear_script channel
