-- ===== src/Audio/Patched.antt =====
-- Each timeslot sends what it was last patched to.
use tedium.Common.{
  ℕ, zero, suc, ◌+◌, ◌<◌, ◌≤◌, ◌≡◌, ◌≢◌, refl, sym, ◌∙◌, ap, ◌⊎◌, inl, inr, Bool-cases, ◌&&◌, List,
  [], ◌∷◌, Option, All, ◌==◌, lt→ltb, arith, if◌then◌else◌, ℕ_discrete,
}
use tedium.Common.Outcome.{ok}
use tedium.Float.{Float}
use tedium.Codec.Ulaw.Sample.{encode-total}
use tedium.Signaling.{TimeslotAddress}
use tedium.Audio.{
  ToneSource, Patch, idle, input, tone, ProcessorMessage, patch, Table, address_of, timeslot,
  replaced, set_timeslot, silent, DualToneGenerator, advanced, AudioProcessor, process_message,
  process_messages, advance_tones, output_of, sample, fill_channel, fill, process_frame,
}

abbrev pub InBounds : TimeslotAddress → Type 0
InBounds a = (a.timeslot < 24) × (a.channel < 8)

-- A patch to an input names a timeslot that exists.
abbrev pub IsPatch : Patch → Type 0
IsPatch idle = Unit
IsPatch (input a) = InBounds a
IsPatch (tone source) = Unit

abbrev pub IsMessage : ProcessorMessage → Type 0
IsMessage (patch a p) = InBounds a × IsPatch p

abbrev pub IsPatching : Table Patch → Type 0
IsPatching map = (t c : ℕ) → IsPatch (map t c)

-- The last of the messages for a timeslot, or else the patch that it had.
unfoldable pub last_patch : List ProcessorMessage → ℕ → ℕ → Patch → Patch
last_patch [] t c before = before
last_patch (patch a p ∷ ms) t c before =
    last_patch ms t c (if (a.timeslot == t) && (a.channel == c) then p else before)

timeslot-ok :
    {T : Type 0} (map : Table T) (a : TimeslotAddress)
    → InBounds a
    → timeslot map a ≡ ok (map a.timeslot a.channel)
unfolding timeslot
timeslot-ok map a (h, k) = rw (lt→ltb a.timeslot 24 h, lt→ltb a.channel 8 k) refl

set_timeslot-ok :
    {T : Type 0} (map : Table T) (a : TimeslotAddress) (v : T)
    → InBounds a
    → set_timeslot map a v ≡ ok (replaced map a v)
unfolding set_timeslot
set_timeslot-ok map a v (h, k) = rw (lt→ltb a.timeslot 24 h, lt→ltb a.channel 8 k) refl

replaced-IsPatching :
    (map : Table Patch) (a : TimeslotAddress) (p : Patch)
    → IsPatching map
    → IsPatch p
    → IsPatching (replaced map a p)
replaced-IsPatching map a p h k t c = elim (Bool-cases ((a.timeslot == t) && (a.channel == c))) [
  | inl e ↦ rw e k
  | inr e ↦ rw e (h t c)
]

module _ (fl : Float) where
  process_messages-ok :
      (ms : List ProcessorMessage) (self : AudioProcessor fl)
      → IsPatching self.patching
      → All IsMessage ms
      → (self' : AudioProcessor fl) × (process_messages fl self ms ≡ ok self')
        × IsPatching self'.patching
        × (self'.tone_plant ≡ self.tone_plant)
        × ((t c : ℕ) → self'.patching t c ≡ last_patch ms t c (self.patching t c))
  unfolding process_messages process_message last_patch
  process_messages-ok [] self h k = (self, refl, h, refl, λ t c. refl)
  process_messages-ok (patch a p ∷ ms) self h ((b, q), ks) =
      let next : AudioProcessor fl = record self { patching = replaced self.patching a p } in
      let (self', e, i, same, l) =
        process_messages-ok ms next (replaced-IsPatching self.patching a p h q) ks in
      (self', rw (set_timeslot-ok self.patching a p b) e, i, same, l)

  sample-total :
      (self : AudioProcessor fl) (frame_in : Table ℕ) (p : Patch)
      → IsPatch p
      → (v : ℕ) × (sample fl self frame_in p ≡ ok v)
  unfolding sample
  sample-total self frame_in idle h = (0xff, refl)
  sample-total self frame_in (input a) h = (frame_in a.timeslot a.channel, timeslot-ok frame_in a h)
  sample-total self frame_in (tone source) h =
      let (code, e) = encode-total fl (output_of fl (self.tone_plant source)) in (code, rw e refl)

  module _ (self : AudioProcessor fl) (frame_in : Table ℕ)
      (patched : IsPatching self.patching) where
    -- What a timeslot is to send.
    abbrev Sends : Table ℕ → ℕ → ℕ → Type 0
    Sends out t c = sample fl self frame_in (self.patching t c) ≡ ok (out t c)

    filled-from :
        (out out' : Table ℕ) (c t count v : ℕ)
        → sample fl self frame_in (self.patching t c) ≡ ok v
        → ((s : ℕ) → suc t ≤ s → s < suc t + count → Sends out' s c)
        → ((s d : ℕ) → (s < suc t) ⊎ (d ≢ c) → out' s d ≡ replaced out (address_of c t) v s d)
        → (s : ℕ) → t ≤ s
        → s < t + suc count
        → Sends out' s c
    filled-from out out' c t count v e sends keeps s l u = elim (ℕ_discrete t s) [
      | yes p ↦
          let here : out' t c ≡ v = keeps t c (inl (omega arith)) ∙ ground arith in
          rw (sym p) (e ∙ ap ok (sym here))
      | no q ↦ sends s (omega (arith, q)) (omega arith)
    ]

    kept-below :
        (out out' : Table ℕ) (c t v : ℕ)
        → ((s d : ℕ) → (s < suc t) ⊎ (d ≢ c) → out' s d ≡ replaced out (address_of c t) v s d)
        → (s d : ℕ) → (s < t) ⊎ (d ≢ c)
        → out' s d ≡ out s d
    kept-below out out' c t v keeps s d (inl h) = keeps s d (inl (omega arith)) ∙ ground arith
    kept-below out out' c t v keeps s d (inr h) = keeps s d (inr h) ∙ ground arith

    fill_channel-ok :
        (count c t : ℕ) (out : Table ℕ)
        → c < 8
        → t + count ≤ 24
        → (out' : Table ℕ) × (fill_channel fl self frame_in c t count out ≡ ok out')
          × ((s : ℕ) → t ≤ s → s < t + count → Sends out' s c)
          × ((s d : ℕ) → (s < t) ⊎ (d ≢ c) → out' s d ≡ out s d)
    unfolding fill_channel
    fill_channel-ok zero c t out h k = (out, refl, (λ s l u. absurd (omega arith)), λ s d o. refl)
    fill_channel-ok (suc count) c t out h k =
        let a = address_of c t in
        let bounds : InBounds a = (omega arith, h) in
        let (v, e) = sample-total self frame_in (self.patching t c) (patched t c) in
        let (out', f, sends, keeps) =
          fill_channel-ok count c (suc t) (replaced out a v) h (omega arith) in
        (
          out',
          rw (timeslot-ok self.patching a bounds, e, set_timeslot-ok out a v bounds) f,
          filled-from out out' c t count v e sends keeps,
          kept-below out out' c t v keeps,
        )

    fill-ok :
        (count c : ℕ) (out : Table ℕ)
        → c + count ≤ 8
        → (out' : Table ℕ) × (fill fl self frame_in c count out ≡ ok out')
          × ((s d : ℕ) → s < 24 → c ≤ d → d < c + count → Sends out' s d)
          × ((s d : ℕ) → d < c → out' s d ≡ out s d)
    unfolding fill
    fill-ok zero c out h = (out, refl, (λ s d k l u. absurd (omega arith)), λ s d l. refl)
    fill-ok (suc count) c out h =
        let (mid, e, sends, keeps) = fill_channel-ok 24 c 0 out (omega arith) (omega arith) in
        let (out', f, rest, below) = fill-ok count (suc c) mid (omega arith) in
        (
          out',
          rw e f,
          (λ s d k l u. elim (ℕ_discrete c d) [
            | yes p ↦
                rw (sym p)
                  (sends s (omega arith) (omega arith) ∙ ap ok (sym (below s c (omega arith))))
            | no q ↦ rest s d k (omega (arith, q)) (omega arith)
          ]),
          λ s d l. below s d (omega arith) ∙ keeps s d (inr (λ e. omega (arith, e))),
        )

  -- While all patches to inputs name timeslots that exist, and so do the messages, a frame is
  -- processed without a panic: the patches stay such, every tone advances once, and each of the
  -- 24 timeslots of the 8 channels carries the sample of the patch that the last message for it
  -- gives, or of the one it had where there is none.
  pub process_frame-ok :
      (self : AudioProcessor fl) (messages : List ProcessorMessage) (frame_in : Table ℕ) (t c : ℕ)
      → IsPatching self.patching
      → All IsMessage messages
      → t < 24
      → c < 8
      → (self' : AudioProcessor fl) × (frame_out : Table ℕ) × (process_frame fl self messages
            frame_in
          ≡ ok (self', frame_out))
        × IsPatching self'.patching
        × (self'.tone_plant ≡ (advance_tones fl self).tone_plant)
        × (sample fl self' frame_in (last_patch messages t c (self.patching t c))
            ≡ ok (frame_out t c))
  unfolding process_frame
  process_frame-ok self messages frame_in t c h k l u =
      let (patched, e, i, same, last) = process_messages-ok messages self h k in
      let ready = advance_tones fl patched in
      let (out, f, sends, _) = fill-ok ready frame_in i 8 0 silent (omega arith) in
      (
        ready,
        out,
        rw (e, f) refl,
        i,
        ap {B = ToneSource → Option (DualToneGenerator fl)}
            (λ (plant : ToneSource → Option (DualToneGenerator fl)) source.
              advanced fl (plant source))
            same,
        rw (sym (last t c)) (sends t c l (omega arith) (omega arith)),
      )
