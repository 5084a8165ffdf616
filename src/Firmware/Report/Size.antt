-- ===== src/Firmware/Report/Size.antt =====
-- How many bytes the firmware puts into the endpoint for one channel (tedium-soc/src/main.rs).
use tedium.Common.{ℕ, ◌<◌, ◌≤◌, ◌≡◌, Bool, List, length, ◌⊎◌, inl, inr}
use tedium.Common.Outcome.{ok}
use tedium.Registers.Bitfield.{Bitfield}
use tedium.Interrupt.Size.{length-encode}
use tedium.Firmware.Effect.{Bus}
use tedium.Firmware.Report.{report}
use tedium.Firmware.Report.Sound.{report-IsReport}

-- On each of the eight channels, whatever the chip answers, the report ends without a panic, and
-- puts no byte, or at least two and at most 417 bytes into the endpoint.
pub length-report :
    (S : Type 0) (bf : Bitfield) (bus : Bus S) (c : ℕ)
    → c < 8
    → (resync : Bool) (s : S)
    → (out : List ℕ) × (s' : S) × (report bf bus c resync s ≡ ok (tt, out, s'))
      × ((length out ≡ 0) ⊎ ((2 ≤ length out) × (length out ≤ 417)))
length-report S bf bus c h resync s =
    let (bisr, s_1, out, s_2, _, e, p) = report-IsReport S bf bus c h resync s in
    elim p [
      | inl (_, none_put) ↦ (out, s_2, e, inl (rw none_put))
      | inr (_, (status, _, _, v, g)) ↦ (out, s_2, e, inr (rw g (length-encode bf status v)))
    ]
