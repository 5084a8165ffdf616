-- ===== src/Interrupt/Tests.antt =====
-- Sample reports.
use tedium.Common.{◌≡◌, refl, none, some, [], ◌∷◌}
use tedium.Common.Outcome.{ok}
use tedium.Registers.Bitfield.{arithmetic, get_field}
use tedium.Registers.Framing.{rdlbcr_layout}
use tedium.Registers.Counters.{bisr_layout}
use tedium.Interrupt.{FramerInterruptStatus, HdlcControllerStatus, from_slice}
use tedium.Interrupt.Wire.{encode, IsStatus}
use tedium.Interrupt.RoundTrip.{from_slice-encode}

abbrev two_bytes : HdlcControllerStatus
two_bytes = record { dlsr = 2; rdlbcr = 0x82; data_bytes = 0x38 ∷ 0x01 ∷ []; ss7sr = 0 }

abbrev quiet : HdlcControllerStatus
quiet = record { dlsr = 0; rdlbcr = 0; data_bytes = []; ss7sr = 1 }

-- An HDLC message and a slip on channel 3.
abbrev message_and_slip : FramerInterruptStatus
message_and_slip = record {
  channel_index = 3;
  bisr = 0x0c;
  lbcode = none;
  hdlc = some (record { controller_0 = two_bytes; controller_1 = quiet; controller_2 = quiet });
  slip = some (record { sbisr = 4 });
  alarm = none;
  t1frame = none;
}

message_and_slip-IsStatus : IsStatus arithmetic message_and_slip
unfolding get_field bisr_layout rdlbcr_layout
message_and_slip-IsStatus = record {
  lbcode = refl;
  hdlc = (refl, (refl, refl, refl));
  slip = (refl, tt);
  alarm = refl;
  t1frame = refl;
}

from_slice-encode_example : from_slice arithmetic (encode message_and_slip) ≡ ok message_and_slip
from_slice-encode_example = from_slice-encode arithmetic message_and_slip message_and_slip-IsStatus
