-- ===== src/Device/Accessors/Tests.antt =====
-- A timeslot's register is reached once.
use tedium.Common.{◌≡◌, refl}
use tedium.Common.Outcome.{ok}
use tedium.Device.Accessors.{tccr, access_timeslot, block_offset}
use tedium.Device.Addressing.{channel_nxxx_timeslot, channel_nxxx}
use tedium.Device.Accessors.Pages.{timeslot, page_address}
use tedium.Device.Accessors.Distinct.{Register, page, address, address_injective}

abbrev tccr_3 : Register
tccr_3 = page 1 (timeslot tccr 3)

tccr_3-at : address tccr_3 ≡ ok 0x1303
unfolding address page_address access_timeslot block_offset channel_nxxx_timeslot channel_nxxx
tccr_3-at = refl

address_injective_example : tccr_3 ≡ tccr_3
address_injective_example = address_injective tccr_3 tccr_3 0x1303 tccr_3-at tccr_3-at
