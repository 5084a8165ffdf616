-- ===== src/Firmware/Service/Warnings.antt =====
-- The checks of the response endpoint only warn.
use Prim.Native.String.{String}
use tedium.Common.{ℕ, refl, Bool, true, false, List, [], ◌∷◌, All, append-All, if◌then◌else◌}
use tedium.Firmware.Effect.{Ends, >>=-Ends, ◌>>=◌, ◌>>◌, pure}
use tedium.Firmware.Service.{
  Output, write_str, clear_stall, IsElsewhere, Board, Serving, emit, ask, prepare,
}
use tedium.Firmware.Service.Answers.{ask-Ends}

-- The warnings before the answer.
abbrev pub IsWarning : Output → Type 0
IsWarning clear_stall = Unit
IsWarning (write_str text) = Unit
IsWarning _ = ⊥

module _ {S : Type 0} (board : Board S) where
  open board use {usb_out, perform}

  -- A part that only warns leaves the packet where it is.
  unfoldable pub Warns : List ℕ → Serving board (Unit {0}) → Type 0
  Warns bytes m =
      (s : S)
      → usb_out.Holds s bytes
      → Ends m s (λ _ out s'. All IsWarning out × usb_out.Holds s' bytes)

  pure-Warns : (bytes : List ℕ) → Warns bytes (pure tt)
  unfolding Warns
  pure-Warns bytes s h = (tt, [], s, refl, (tt, h))

  emit-Warns :
      (bytes : List ℕ) (o : Output) → IsWarning o → IsElsewhere o → Warns bytes (emit board o)
  unfolding Warns emit
  emit-Warns bytes o w i s h =
      (tt, o ∷ [], perform o s, refl, ((w, tt), board.perform-Holds o s bytes i h))

  then-Warns :
      (bytes : List ℕ) (m k : Serving board (Unit {0}))
      → Warns bytes m
      → Warns bytes k
      → Warns bytes (m >> k)
  unfolding Warns
  then-Warns bytes m k wm wk s h =
      >>=-Ends m (λ _. k) s (λ _ out s'. All IsWarning out × usb_out.Holds s' bytes) _ (wm s h)
        (λ _ out s' (w, h').
          let (_, more, s'', e, (w', h'')) = wk s' h' in
          (tt, more, s'', e, (append-All IsWarning out more w w', h'')))

  if-Warns :
      (bytes : List ℕ) (b : Bool) (m k : Serving board (Unit {0}))
      → Warns bytes m
      → Warns bytes k
      → Warns bytes (if b then m else k)
  if-Warns bytes true m k wm wk = wm
  if-Warns bytes false m k wm wk = wk

  ask-Warns :
      (bytes : List ℕ) (register : S → Bool) (k : Bool → Serving board (Unit {0}))
      → ((b : Bool) → Warns bytes (k b))
      → Warns bytes (ask board register >>= k)
  unfolding Warns
  ask-Warns bytes register k w s h = ask-Ends board register k s _ (w (register s) s h)

  pub prepare-Warns : (bytes : List ℕ) → Warns bytes (prepare board)
  unfolding prepare
  prepare-Warns bytes =
      let nothing = pure-Warns bytes in
      let say = λ (text : String). emit-Warns bytes (write_str text) tt tt in
      let stall = then-Warns bytes _ _ (emit-Warns bytes clear_stall tt tt) (say _) in
      ask-Warns bytes board.is_stalled _ (λ b.
        then-Warns bytes _ _ (if-Warns bytes b _ _ stall nothing) (
          ask-Warns bytes board.is_idle _ (λ c.
            then-Warns bytes _ _ (if-Warns bytes c _ _ nothing (say _))
              (ask-Warns bytes board.is_fifo_empty _ (λ d. if-Warns bytes d _ _ nothing (say _))))))
