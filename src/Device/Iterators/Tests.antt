-- ===== src/Device/Iterators/Tests.antt =====
-- The loops over the timeslots and the channels.
use tedium.Common.{◌≡◌, refl, some, none, range}
use tedium.Common.Outcome.{ok}
use tedium.Device.Iterators.{next_timeslot, next_channel, drain, drain-range}

next_channel_last : next_channel 8 ≡ ok none
unfolding next_channel
next_channel_last = refl

drain-range_example :
    (drain next_timeslot 30 0 ≡ ok (some (range 0 24)))
    × (drain next_channel 14 0 ≡ ok (some (range 0 8)))
drain-range_example = drain-range 5
