-- ===== src/Audio/Tests.antt =====
-- A timeslot that is patched to another, and back.
use tedium.Common.{ℕ, ◌+◌, ◌*◌, ◌≡◌, List, [], ◌∷◌, All, arith}
use tedium.Common.Outcome.{ok}
use tedium.Float.Integers.{integers}
use tedium.Audio.{
  idle, input, tone, dial_tone_precise, ProcessorMessage, patch, Table, address_of, AudioProcessor,
  new, sample, process_frame, advance_tones,
}
use tedium.Audio.Patched.{IsPatching, IsMessage, last_patch, process_frame-ok}

abbrev messages : List ProcessorMessage
messages =
    patch (address_of 0 1) (input (address_of 7 23))
    ∷ patch (address_of 2 3) (tone dial_tone_precise)
    ∷ patch (address_of 0 1) idle
    ∷ []

abbrev numbered : Table ℕ
numbered t c = t * 8 + c

new-IsPatching : IsPatching (new integers).patching
unfolding new
new-IsPatching t c = tt

messages-IsMessage : All IsMessage messages
messages-IsMessage = omega arith

process_frame-ok_example :
    (self' : AudioProcessor integers) × (frame_out : Table ℕ) × (process_frame integers
        (new integers)
        messages
        numbered
      ≡ ok (self', frame_out))
    × IsPatching self'.patching
    × (self'.tone_plant ≡ (advance_tones integers (new integers)).tone_plant)
    × (sample integers self' numbered (last_patch messages 3 2 ((new integers).patching 3 2))
        ≡ ok (frame_out 3 2))
process_frame-ok_example =
    process_frame-ok integers (new integers) messages numbered 3 2 new-IsPatching messages-IsMessage
      (omega arith) (omega arith)
