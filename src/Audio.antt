-- ===== src/Audio.antt =====
-- The audio processor: what is sent in each timeslot
-- (tedium/tools/tedium-tool/src/framer/audio.rs, tedium/tools/tedium-tool/src/generator). An array
-- of fixed size is a function of its indices; an index out of bounds is a panic.
pub mod Patched
mod Tests
use tedium.Common.{
  ℕ, zero, suc, ◌+◌, Bool, true, false, ◌&&◌, List, [], ◌∷◌, ◌++◌, Option, none, some, ◌==◌, ltb,
  if◌then◌else◌,
}
use tedium.Common.Outcome.{Outcome, ok, panic, assertion, out_of_bounds, ◌>>=◌, ◌>>◌}
use tedium.Common.Int.{pos}
use tedium.Float.{Float}
use tedium.Codec.Ulaw.Sample.{encode}
use tedium.Signaling.{TimeslotAddress}

pub data ToneSource : Type 0 where
  dial_tone_precise ringback : ToneSource

pub data Patch : Type 0 where
  idle : Patch
  input : TimeslotAddress → Patch
  tone : ToneSource → Patch

-- `ProcessorMessage::Patch`.
pub data ProcessorMessage : Type 0 where
  patch : TimeslotAddress → Patch → ProcessorMessage

-- `[[T; CHANNELS]; TIMESLOTS_PER_CHANNEL]`.
abbrev pub Table : Type 0 → Type 0
Table T = ℕ → ℕ → T

-- `TimeslotAddress::new`.
abbrev pub address_of : ℕ → ℕ → TimeslotAddress
address_of c t = record { channel = c; timeslot = t }

abbrev pub in_bounds : TimeslotAddress → Bool
in_bounds a = ltb a.timeslot 24 && ltb a.channel 8

-- `timeslot` and the assignment through `timeslot_mut`, of `Patching` and of `Frame`.
unfoldable pub timeslot : {T : Type 0} → Table T → TimeslotAddress → Outcome T
timeslot map a = if in_bounds a then ok (map a.timeslot a.channel) else panic out_of_bounds

abbrev pub replaced : {T : Type 0} → Table T → TimeslotAddress → T → Table T
replaced map a v t c = if (a.timeslot == t) && (a.channel == c) then v else map t c

unfoldable pub set_timeslot : {T : Type 0} → Table T → TimeslotAddress → T → Outcome (Table T)
set_timeslot map a v = if in_bounds a then ok (replaced map a v) else panic out_of_bounds

-- `Frame::default()`.
abbrev pub silent : Table ℕ
silent t c = 0xff

pub record DualToneGenerator (fl : Float) : Type 0 where
  pub phase_0 : fl.F
  pub phase_advance_0 : fl.F
  pub phase_1 : fl.F
  pub phase_advance_1 : fl.F
  pub amplitude : fl.F
  pub output : fl.F

pub record AudioProcessor (fl : Float) : Type 0 where
  pub patching : Table Patch
  -- the `HashMap` of generators
  pub tone_plant : ToneSource → Option (DualToneGenerator fl)

module _ (fl : Float) where
  open fl use {F, lit, tau, add, mul, div, rem, sin}

  unfoldable pub new_generator : F → F → DualToneGenerator fl
  new_generator freq_1_hz freq_2_hz = record {
    phase_0 = lit (pos 0) 1;
    phase_advance_0 = div (mul tau freq_1_hz) (lit (pos 8000) 1);
    phase_1 = lit (pos 0) 1;
    phase_advance_1 = div (mul tau freq_2_hz) (lit (pos 8000) 1);
    amplitude = lit (pos 1) 10;
    output = lit (pos 0) 1;
  }

  unfoldable pub advance_generator : DualToneGenerator fl → DualToneGenerator fl
  advance_generator g = record g {
    output = mul (mul (add (sin g.phase_0) (sin g.phase_1)) (lit (pos 1) 2)) g.amplitude;
    phase_0 = rem (add g.phase_0 g.phase_advance_0) tau;
    phase_1 = rem (add g.phase_1 g.phase_advance_1) tau;
  }

  abbrev plant : ToneSource → Option (DualToneGenerator fl)
  plant dial_tone_precise = some (new_generator (lit (pos 350) 1) (lit (pos 440) 1))
  plant ringback = some (new_generator (lit (pos 440) 1) (lit (pos 480) 1))

  unfoldable pub new : AudioProcessor fl
  new = record { patching = λ t c. idle; tone_plant = plant }

  unfoldable pub process_message :
      AudioProcessor fl → ProcessorMessage → Outcome (AudioProcessor fl)
  process_message self (patch address p) = do
    patching ← set_timeslot self.patching address p
    ok (record self { patching = patching })

  -- `while let Ok(message) = self.processor_receiver.try_recv()`, over the messages that are there.
  unfoldable pub process_messages :
      AudioProcessor fl → List ProcessorMessage → Outcome (AudioProcessor fl)
  process_messages self [] = ok self
  process_messages self (m ∷ ms) = do self' ← process_message self m; process_messages self' ms

  abbrev pub advanced : Option (DualToneGenerator fl) → Option (DualToneGenerator fl)
  advanced (some g) = some (advance_generator g)
  advanced none = none

  -- `for generator in self.tone_plant.values_mut()`.
  abbrev pub advance_tones : AudioProcessor fl → AudioProcessor fl
  advance_tones self = record self { tone_plant = λ source. advanced (self.tone_plant source) }

  abbrev pub output_of : Option (DualToneGenerator fl) → F
  output_of (some g) = g.output
  output_of none = lit (pos 0) 1

  -- A failed assertion of the encoder panics.
  abbrev encoded : Option ℕ → Outcome ℕ
  encoded (some code) = ok code
  encoded none = panic assertion

  -- The `match` on the patch of a timeslot.
  unfoldable pub sample : AudioProcessor fl → Table ℕ → Patch → Outcome ℕ
  sample self frame_in idle = ok 0xff
  sample self frame_in (input address) = timeslot frame_in address
  sample self frame_in (tone source) = encoded (encode fl (output_of (self.tone_plant source)))

  -- The inner loop: the `count` timeslots of a channel from `t`.
  unfoldable pub fill_channel :
      AudioProcessor fl → Table ℕ → (c t count : ℕ) → Table ℕ → Outcome (Table ℕ)
  fill_channel self frame_in c t zero frame_out = ok frame_out
  fill_channel self frame_in c t (suc count) frame_out = do
    let address = address_of c t
    p ← timeslot self.patching address
    v ← sample self frame_in p
    frame_out' ← set_timeslot frame_out address v
    fill_channel self frame_in c (suc t) count frame_out'

  -- The outer loop: the `count` channels from `c`.
  unfoldable pub fill : AudioProcessor fl → Table ℕ → (c count : ℕ) → Table ℕ → Outcome (Table ℕ)
  fill self frame_in c zero frame_out = ok frame_out
  fill self frame_in c (suc count) frame_out = do
    frame_out' ← fill_channel self frame_in c 0 24 frame_out
    fill self frame_in (suc c) count frame_out'

  unfoldable pub process_frame :
      AudioProcessor fl → List ProcessorMessage → Table ℕ → Outcome (AudioProcessor fl × Table ℕ)
  process_frame self messages frame_in = do
    patched ← process_messages self messages
    let ready = advance_tones patched
    frame_out ← fill ready frame_in 0 8 silent
    ok (ready, frame_out)
