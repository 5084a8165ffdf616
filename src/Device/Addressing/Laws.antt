-- ===== src/Device/Addressing/Laws.antt =====
-- Where the registers lie, and that they do not share an address.
use tedium.Common.{
  ℕ, ◌+◌, ◌*◌, ◌^◌, ◌<◌, ◌≡◌, bit_and, bit_or, bit_or-shifted, arith, ltb, ◌&&◌, if◌then◌else◌,
}
use tedium.Common.Outcome.{ok, panic, assertion}
use tedium.Device.Addressing.{channel_nxxx, channel_nxxx_timeslot, channel_0fnx, global_0fex}

page :
    (channel offset : ℕ)
    → offset < 0x1000
    → bit_or (channel * 2 ^ 12) offset ≡ channel * 4096 + offset
page channel offset h = bit_or-shifted 12 channel offset (omega arith)

-- The page of a channel and the offset in it make up the address; any other channel or offset
-- fails an assertion.
pub channel_nxxx_lem :
    (channel offset : ℕ)
    → channel_nxxx channel offset ≡ (
        if ltb channel 8 && ltb offset 0x1000
        then ok (channel * 4096 + offset)
        else panic assertion)
unfolding channel_nxxx
channel_nxxx_lem channel offset = ground (arith, page channel offset)

-- Two calls that succeed with one address are the same call.
pub channel_nxxx_injective :
    (c o c' o' a : ℕ) → channel_nxxx c o ≡ ok a → channel_nxxx c' o' ≡ ok a → (c ≡ c') × (o ≡ o')
channel_nxxx_injective c o c' o' a e e' =
    ground (arith, channel_nxxx_lem c o, channel_nxxx_lem c' o')

-- The row of a channel in the line interface unit.
liu_row :
    (channel offset : ℕ)
    → channel < 8
    → offset < 16
    → bit_or (bit_or 0x0f00 (channel * 2 ^ 4)) offset ≡ 0x0f00 + channel * 16 + offset
liu_row channel offset h k =
    let high : bit_or 0x0f00 (channel * 2 ^ 4) ≡ (240 + channel) * 2 ^ 4 =
      omega (arith, bit_or-shifted 7 30 (channel * 2 ^ 4) (omega arith)) in
    rw high (omega (arith, bit_or-shifted 4 (240 + channel) offset (omega arith)))

-- The same of the line interface unit's registers.
pub channel_0fnx_lem :
    (channel offset : ℕ)
    → channel_0fnx channel offset ≡ (
        if ltb channel 8 && ltb offset 16
        then ok (0x0f00 + channel * 16 + offset)
        else panic assertion)
unfolding channel_0fnx
channel_0fnx_lem channel offset = ground (arith, liu_row channel offset)

pub global_0fex_lem :
    (offset : ℕ)
    → global_0fex offset ≡ (if ltb offset 16 then ok (0x0fe0 + offset) else panic assertion)
unfolding global_0fex
global_0fex_lem offset = ground (arith, bit_or-shifted 4 0xfe offset)

-- A block that starts at a multiple of 16 below 0xfe0 has a register for each of the 24 timeslots
-- of the 8 channels, at the timeslot's distance from its start; any other timeslot or channel
-- fails an assertion.
pub channel_nxxx_timeslot_lem :
    (channel block timeslot : ℕ)
    → bit_and block 15 ≡ 0
    → block < 0xfe0
    → channel_nxxx_timeslot channel block timeslot ≡ (
        if ltb timeslot 24 && ltb channel 8
        then ok (channel * 4096 + block + timeslot)
        else panic assertion)
unfolding channel_nxxx_timeslot
channel_nxxx_timeslot_lem channel block timeslot aligned h =
    ground (arith, channel_nxxx_lem channel (block + timeslot))
