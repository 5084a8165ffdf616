-- ===== src/Registers/Enumerations/Stored.antt =====
-- The values of an enumeration fit the fields that are declared with it, and are told apart when
-- they are read back.
use tedium.Common.{
  ℕ, ◌^◌, ◌<◌, ◌≡◌, ◌==◌, ==_iff, refl, Bool, true, false, ◌&&◌, Option, none, some, List, [], ◌∷◌,
  All, arith, subst, Option-cases, inl, inr,
}
use Prim.Native.String.{String}
use tedium.Registers.Layout.{Layout, Position, position}
use tedium.Registers.Bitfield.{Bitfield, get_field, with_field}
use tedium.Registers.Lens.{get_field-with_field}
use tedium.Registers.Enumerations.{
  Enumeration, Value, specifier, fields, clock_source, framer_loopback, t1_framing,
  transmit_ais_pattern, ais_detection, receive_slip_buffer, automatic_performance_report,
  bit_error_insertion_rate, bert_pattern, transmit_lapd_source, zero_code_suppression,
  channel_conditioning, channel_signaling_source, receive_lapd_source,
  receive_signaling_conditioning, receive_signaling_extraction, prbs_pattern, prbs_destination,
  termination, termination_impedance, transmit_test_pattern, liu_loopback,
  network_loop_code_detection, wire_gauge, clock_select,
}
use tedium.Registers.Counters.{rsctr_layout}
use tedium.Registers.Framing.{
  agr_layout, bertcsr0_layout, csr_layout, fsr_layout, licr_layout, prcr_layout, sbcr_layout,
}
use tedium.Registers.Lines.{
  liuccr0_layout, liuccr1_layout, liuccr2_layout, liuccr3_layout, liugcr1_layout, liugcr4_layout,
}
use tedium.Registers.Loopback.{bcr_layout, rccr_layout, tccr_layout, tscr_layout}

abbrev room_at : Option Position → ℕ → Bool
room_at (some p) width = p.size == width
room_at none width = false

room : List (Layout × String) → ℕ → Bool
unfolding position
room [] width = true
room ((layout, name) ∷ rest) width = room_at (position name layout) width && room rest width

no_room : false ≡ true → ⊥
no_room h = cc

fields-room : (e : Enumeration) → room (fields e) (specifier e).width ≡ true
unfolding room position fields specifier agr_layout bcr_layout bertcsr0_layout csr_layout fsr_layout
    licr_layout liuccr0_layout liuccr1_layout liuccr2_layout liuccr3_layout liugcr1_layout
    liugcr4_layout prcr_layout rccr_layout rsctr_layout sbcr_layout tccr_layout tscr_layout
fields-room clock_source = refl
fields-room framer_loopback = refl
fields-room t1_framing = refl
fields-room transmit_ais_pattern = refl
fields-room ais_detection = refl
fields-room receive_slip_buffer = refl
fields-room automatic_performance_report = refl
fields-room bit_error_insertion_rate = refl
fields-room bert_pattern = refl
fields-room transmit_lapd_source = refl
fields-room zero_code_suppression = refl
fields-room channel_conditioning = refl
fields-room channel_signaling_source = refl
fields-room receive_lapd_source = refl
fields-room receive_signaling_conditioning = refl
fields-room receive_signaling_extraction = refl
fields-room prbs_pattern = refl
fields-room prbs_destination = refl
fields-room termination = refl
fields-room termination_impedance = refl
fields-room transmit_test_pattern = refl
fields-room liu_loopback = refl
fields-room network_loop_code_detection = refl
fields-room wire_gauge = refl
fields-room clock_select = refl

discriminant-lt :
    (e : Enumeration) (v : Value e) → (specifier e).discriminant v < 2 ^ (specifier e).width
unfolding Value specifier
discriminant-lt clock_source v = ground arith
discriminant-lt framer_loopback v = ground arith
discriminant-lt t1_framing v = ground arith
discriminant-lt transmit_ais_pattern v = ground arith
discriminant-lt ais_detection v = ground arith
discriminant-lt receive_slip_buffer v = ground arith
discriminant-lt automatic_performance_report v = ground arith
discriminant-lt bit_error_insertion_rate v = ground arith
discriminant-lt bert_pattern v = ground arith
discriminant-lt transmit_lapd_source v = ground arith
discriminant-lt zero_code_suppression v = ground arith
discriminant-lt channel_conditioning v = ground arith
discriminant-lt channel_signaling_source v = ground arith
discriminant-lt receive_lapd_source v = ground arith
discriminant-lt receive_signaling_conditioning v = ground arith
discriminant-lt receive_signaling_extraction v = ground arith
discriminant-lt prbs_pattern v = ground arith
discriminant-lt prbs_destination v = ground arith
discriminant-lt termination v = ground arith
discriminant-lt termination_impedance v = ground arith
discriminant-lt transmit_test_pattern v = ground arith
discriminant-lt liu_loopback v = ground arith
discriminant-lt network_loop_code_detection v = ground arith
discriminant-lt wire_gauge v = ground arith
discriminant-lt clock_select v = ground arith

discriminant_injective :
    (e : Enumeration) (v w : Value e)
    → (specifier e).discriminant v ≡ (specifier e).discriminant w
    → v ≡ w
unfolding Value specifier
discriminant_injective clock_source v w h = ground arith
discriminant_injective framer_loopback v w h = ground arith
discriminant_injective t1_framing v w h = ground arith
discriminant_injective transmit_ais_pattern v w h = ground arith
discriminant_injective ais_detection v w h = ground arith
discriminant_injective receive_slip_buffer v w h = ground arith
discriminant_injective automatic_performance_report v w h = ground arith
discriminant_injective bit_error_insertion_rate v w h = ground arith
discriminant_injective bert_pattern v w h = ground arith
discriminant_injective transmit_lapd_source v w h = ground arith
discriminant_injective zero_code_suppression v w h = ground arith
discriminant_injective channel_conditioning v w h = ground arith
discriminant_injective channel_signaling_source v w h = ground arith
discriminant_injective receive_lapd_source v w h = ground arith
discriminant_injective receive_signaling_conditioning v w h = ground arith
discriminant_injective receive_signaling_extraction v w h = ground arith
discriminant_injective prbs_pattern v w h = ground arith
discriminant_injective prbs_destination v w h = ground arith
discriminant_injective termination v w h = ground arith
discriminant_injective termination_impedance v w h = ground arith
discriminant_injective transmit_test_pattern v w h = ground arith
discriminant_injective liu_loopback v w h = ground arith
discriminant_injective network_loop_code_detection v w h = ground arith
discriminant_injective wire_gauge v w h = ground arith
discriminant_injective clock_select v w h = ground arith

module _ (bf : Bitfield) (e : Enumeration) where
  -- The value that was set is what the field holds, whatever the register held.
  abbrev pub HoldsValue : Layout × String → Type 0
  HoldsValue (layout, name) =
      (v : Value e) (byte : ℕ)
      → get_field bf layout name (with_field bf layout name ((specifier e).discriminant v) byte)
        ≡ (specifier e).discriminant v

  field-HoldsValue :
      (layout : Layout) (name : String)
      → room_at (position name layout) (specifier e).width ≡ true
      → HoldsValue (layout, name)
  field-HoldsValue layout name h v byte = elim (Option-cases (position name layout)) [
    | inl absent ↦ absurd (no_room (subst (λ o. room_at o (specifier e).width ≡ true) absent h))
    | inr (p, here) ↦
        let size : p.size ≡ (specifier e).width =
          (==_iff _ _).0 (subst (λ o. room_at o (specifier e).width ≡ true) here h) in
        (get_field-with_field bf layout name p ((specifier e).discriminant v) byte here
          (rw size (discriminant-lt e v))).0
  ]

  fields-HoldsValue :
      (fs : List (Layout × String)) → room fs (specifier e).width ≡ true → All HoldsValue fs
  unfolding room
  fields-HoldsValue [] h = tt
  fields-HoldsValue ((layout, name) ∷ rest) h =
      (field-HoldsValue layout name (ground arith), fields-HoldsValue rest (ground arith))

  -- A value of an enumeration that is set in any of the register fields declared with it is what
  -- the field then holds, whatever the register held, and two values that are stored alike are the
  -- same.
  stored-HoldsValue :
      All HoldsValue (fields e)
      × ((v w : Value e) → (specifier e).discriminant v ≡ (specifier e).discriminant w → v ≡ w)
  stored-HoldsValue = (fields-HoldsValue (fields e) (fields-room e), discriminant_injective e)
