-- ===== src/Firmware/Service/Sound.antt =====
-- Every request is answered, and the endpoint of the requests is armed again.
use tedium.Common.{
  ℕ, ◌≡◌, refl, inl, inr, Bool, true, false, not, ◌&&◌, ◌==◌, List, [], ◌∷◌, ◌++◌, All, Bool-cases,
  ==_iff, u8, arith, if◌then◌else◌,
}
use tedium.Firmware.Effect.{Ends, >>=-Ends, ◌>>=◌, ◌>>◌, pure}
use tedium.Firmware.Request.Parse.{decode}
use tedium.Firmware.Service.{
  Output, set_stall, set_prime, set_enable, Board, emit, prepare, answer, request, rearm, serve,
}
use tedium.Firmware.Service.Answers.{Answers, ask-Ends, request-Ends}
use tedium.Firmware.Service.Warnings.{IsWarning, Warns, prepare-Warns}

abbrev rearmed : List Output
rearmed = set_stall 0 ∷ set_prime 1 ∷ set_enable 1 ∷ []

-- What the service puts out, by whether the endpoint has stopped, whether the packet is for this
-- endpoint, and the bytes of the packet.
abbrev pub Serves : (stopped addressed : Bool) → List ℕ → List Output → Type 0
Serves false _ bytes out = out ≡ []
Serves true false bytes out = out ≡ rearmed
Serves true true [] out = out ≡ rearmed
Serves true true (b ∷ bytes) out =
    (warnings : List Output) × (answer : List Output) × (out ≡ warnings ++ answer ++ rearmed)
    × All IsWarning warnings
    × Answers (decode (b ∷ bytes)) answer

module _ {S : Type 0} (board : Board S) where
  open board use {usb_out, perform}

  rearm-Ends : (s : S) → Ends (rearm board) s (λ _ out _. out ≡ rearmed)
  unfolding rearm emit ◌>>=◌
  rearm-Ends s = (tt, rearmed, _, refl, refl)

  handled-Ends :
      (b : ℕ) (bytes : List ℕ) (s : S)
      → usb_out.Holds s (b ∷ bytes)
      → Ends
          ((prepare board >> request board) >> rearm board)
          s
          (λ _ out _. Serves true true (b ∷ bytes) out)
  unfolding Warns
  handled-Ends b bytes s h =
      let all = b ∷ bytes in
      >>=-Ends (prepare board >> request board) (λ _. rearm board) s
        (λ _ out _.
          (warnings : List Output) × (answer : List Output) × (out ≡ warnings ++ answer)
          × All IsWarning warnings
          × Answers (decode all) answer)
        _
        (>>=-Ends (prepare board) (λ _. request board) s
          (λ _ out s'. All IsWarning out × usb_out.Holds s' all) _ (prepare-Warns board all s h)
          (λ _ warnings s' (w, h').
            let (_, answer, s'', e, a) = request-Ends board all s' h' in
            (tt, answer, s'', e, (warnings, answer, refl, w, a))))
        (λ _ out s' (warnings, answer, e, w, a).
          let (_, more, s'', f, g) = rearm-Ends s' in
          (tt, more, s'', f, (warnings, answer, rw (e, g) refl, w, a)))

  idle-Ends : (s : S) → Ends (pure {W = Output} tt >> rearm board) s (λ _ out _. out ≡ rearmed)
  unfolding rearm emit ◌>>=◌
  idle-Ends s = (tt, rearmed, _, refl, refl)

  stopped-Ends :
      (s : S) (bytes : List ℕ)
      → usb_out.Holds s bytes
      → Ends
          ((if not (u8 (usb_out.have s) == 0) && (u8 (board.get_data_ep s) == 3)
              then prepare board >> request board
              else pure tt)
            >> rearm board)
          s
          (λ _ out _. Serves true (u8 (board.get_data_ep s) == 3) bytes out)
  stopped-Ends s [] h =
      let none_left : (u8 (usb_out.have s) == 0) ≡ true = (==_iff _ _).1 (usb_out.have-empty s h) in
      elim (Bool-cases (u8 (board.get_data_ep s) == 3)) [
        | inl e ↦ rw (none_left, e) (idle-Ends s)
        | inr e ↦ rw (none_left, e) (idle-Ends s)
      ]
  stopped-Ends s (b ∷ bytes) h =
      let some_left : (u8 (usb_out.have s) == 0) ≡ false =
        ground (arith, usb_out.have-more s b bytes h) in
      elim (Bool-cases (u8 (board.get_data_ep s) == 3)) [
        | inl e ↦ rw (some_left, e) (handled-Ends b bytes s h)
        | inr e ↦ rw (some_left, e) (idle-Ends s)
      ]

  -- The service of the requests does nothing while the endpoint is waiting for a packet. When it
  -- has stopped it ends without a panic, whatever the peripherals answer, and arms the endpoint
  -- again; before that, if there is a packet for it, it warns where the response endpoint is not
  -- ready, and does what the bytes of the packet ask for: one access of the chip with the response
  -- or the message that it failed, or the message of an error.
  pub serve-Serves :
      (s : S) (bytes : List ℕ)
      → usb_out.Holds s bytes
      → Ends (serve board) s (λ _ out _.
        Serves (u8 (board.get_enable s) == 0) (u8 (board.get_data_ep s) == 3) bytes out)
  unfolding serve
  serve-Serves s bytes h = ask-Ends board board.get_enable _ s _ (
      ask-Ends board usb_out.have _ s _ (
        ask-Ends board board.get_data_ep _ s _ (elim (Bool-cases (u8 (board.get_enable s) == 0)) [
          | inl stopped ↦ rw stopped (stopped-Ends s bytes h)
          | inr waiting ↦ rw waiting (tt, [], s, refl, refl)
        ])))
