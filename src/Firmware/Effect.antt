-- ===== src/Firmware/Effect.antt =====
-- What the firmware does to the world: it reads and writes the chip, it may panic, and it puts
-- bytes into the FIFO of a USB endpoint (`USBEndpointIn::write_fifo` of tedium-soc/src/usb.rs) or
-- of the UART. The chip is a parameter: a read may change its state.
use tedium.Common.{
  ℕ, ◌<◌, ltb, lt→ltb, true, ◌≡◌, refl, List, [], ◌∷◌, ◌++◌, u8, arith, All, length, ◌==◌,
  if◌then◌else◌,
}
use tedium.Common.Outcome.{Outcome, ok, panic, assertion}

-- The value, what was put out, the state afterwards.
abbrev pub Outputs : Type 0 → Type 0 → Type 0 → Type 0
Outputs W S A = S → Outcome (A × List W × S)

-- The outputs are bytes, and the state is the chip.
abbrev pub Effect : Type 0 → Type 0 → Type 0
Effect S A = Outputs ℕ S A

abbrev put_before : {W S A : Type 0} → List W → Outcome (A × List W × S) → Outcome (A × List W × S)
put_before out (ok (a, more, s)) = ok (a, out ++ more, s)
put_before out (panic p) = panic p

abbrev and_then :
    {W S A B : Type 0} → Outcome (A × List W × S) → (A → Outputs W S B) → Outcome (B × List W × S)
and_then (ok (a, out, s)) k = put_before out (k a s)
and_then (panic p) k = panic p

infixl 5 ◌>>=◌ ◌>>◌
unfoldable pub ◌>>=◌ : {W S A B : Type 0} → Outputs W S A → (A → Outputs W S B) → Outputs W S B
(m >>= k) s = and_then (m s) k

abbrev pub ◌>>◌ : {W S B : Type 0} → Outputs W S (Unit {0}) → Outputs W S B → Outputs W S B
m >> k = m >>= λ _. k

abbrev pub pure : {W S A : Type 0} → A → Outputs W S A
pure a s = ok (a, [], s)

abbrev lifted : {W S A : Type 0} → Outcome A → S → Outcome (A × List W × S)
lifted (ok a) s = ok (a, [], s)
lifted (panic p) s = panic p

-- An address that may not exist, a `match` that may be unreachable.
unfoldable pub lift : {W S A : Type 0} → Outcome A → Outputs W S A
lift o s = lifted o s

-- `write_fifo`.
unfoldable pub write_fifo : {S : Type 0} → ℕ → Effect S (Unit {0})
write_fifo byte s = ok (tt, byte ∷ [], s)

-- `for x in xs`.
unfoldable pub for_each : {S : Type 0} → List ℕ → (ℕ → Effect S (Unit {0})) → Effect S (Unit {0})
for_each [] body = pure tt
for_each (x ∷ xs) body = body x >> for_each xs body

-- `if flag != 0 { … }`.
unfoldable pub when_set : {S : Type 0} → ℕ → Effect S (Unit {0}) → Effect S (Unit {0})
when_set flag body = if flag == 0 then pure tt else body

-- The bus of the chip: the word at an address, and the chip after the read.
abbrev pub Bus : Type 0 → Type 0
Bus S = ℕ → S → ℕ × S

-- `assert!(address < 0x10000)` of `get_typed` (xrt86vx38-pac/src/device.rs).
abbrev pub checked : Outcome ℕ → Outcome ℕ
checked (ok a) = if ltb a 0x10000 then ok a else panic assertion
checked (panic p) = panic p

-- `Access::read` of xrt86vx38-pac/src/device.rs by that of tedium-soc/src/framer.rs, of the
-- register that an accessor names; it never fails, so `unwrap` does not.
unfoldable pub read_register : {S : Type 0} → Bus S → Outcome ℕ → Effect S ℕ
read_register bus address =
    lift (checked address) >>= λ a s. let (v, s') = bus a s in ok (u8 v, [], s')

-- A run from a state ends without a panic, and its value, what it puts out and the state that it
-- leaves satisfy `Q`.
abbrev pub Ends : {W S A : Type 0} → Outputs W S A → S → (A → List W → S → Type 0) → Type 0
Ends {W} {S} {A} m s Q = (a : A) × (out : List W) × (s' : S) × (m s ≡ ok (a, out, s')) × Q a out s'

pub >>=-Ends :
    {W S A B : Type 0} (m : Outputs W S A) (k : A → Outputs W S B) (s : S)
    (P : A → List W → S → Type 0) (Q : B → List W → S → Type 0)
    → Ends m s P
    → ((a : A) (out : List W) (s' : S)
        → P a out s'
        → Ends (k a) s' (λ b more s''. Q b (out ++ more) s''))
    → Ends (m >>= k) s Q
unfolding ◌>>=◌
>>=-Ends m k s P Q (a, out, s', e, p) next =
    let (b, more, s'', f, q) = next a out s' p in (b, out ++ more, s'', rw (e, f) refl, q)

-- So it does from every state, whatever it leaves.
unfoldable pub Emits : {S A : Type 0} → Effect S A → (A → List ℕ → Type 0) → Type 0
Emits m Q = (s : _) → Ends m s (λ a out _. Q a out)

module _ (S : Type 0) where
  pub pure-Emits :
      {A : Type 0} (a : A) (Q : A → List ℕ → Type 0) → Q a [] → Emits {S = S} (pure a) Q
  unfolding Emits
  pure-Emits a Q q s = (a, [], s, refl, q)

  pub >>=-Emits :
      {A B : Type 0} (m : Effect S A) (k : A → Effect S B) (P : A → List ℕ → Type 0)
      (Q : B → List ℕ → Type 0)
      → Emits m P
      → ((a : A) (out : List ℕ) → P a out → Emits (k a) (λ b more. Q b (out ++ more)))
      → Emits (m >>= k) Q
  unfolding Emits
  >>=-Emits m k P Q em ek s =
      >>=-Ends m k s (λ a out _. P a out) (λ b out _. Q b out) (em s) (λ a out s' p. ek a out p s')

  pub weaken-Emits :
      {A : Type 0} (m : Effect S A) (P Q : A → List ℕ → Type 0)
      → Emits m P
      → ((a : A) (out : List ℕ) → P a out → Q a out)
      → Emits m Q
  unfolding Emits
  weaken-Emits m P Q em h s = let (a, out, s', e, p) = em s in (a, out, s', e, h a out p)

  pub write_fifo-Emits : (b : ℕ) → Emits {S = S} (write_fifo b) (λ _ out. out ≡ b ∷ [])
  unfolding Emits write_fifo
  write_fifo-Emits b s = (tt, b ∷ [], s, refl, refl)

  -- A read of a register that is there gives a byte and puts nothing.
  pub read_register-Emits :
      (bus : Bus S) (address : Outcome ℕ) (a : ℕ)
      → (address ≡ ok a) × (a < 0x10000)
      → Emits (read_register bus address) (λ v out. (v < 256) × (out ≡ []))
  unfolding Emits read_register lift ◌>>=◌
  read_register-Emits bus address a (e, l) s =
      let inside : ltb a 0x10000 ≡ true = lt→ltb a 0x10000 l in
      let (v, s') = bus a s in (u8 v, [], s', rw (e, inside) refl, (omega arith, refl))

  -- A loop whose every round puts one byte that satisfies `P` puts as many as it has rounds.
  pub for_each-Emits :
      (xs : List ℕ) (body : ℕ → Effect S (Unit {0})) (P : ℕ → Type 0)
      → All (λ x. Emits (body x) (λ _ out. (b : ℕ) × P b × (out ≡ b ∷ []))) xs
      → Emits (for_each xs body) (λ _ out. (length out ≡ length xs) × All P out)
  unfolding for_each
  for_each-Emits [] body P h = pure-Emits tt _ (refl, tt)
  for_each-Emits (x ∷ xs) body P (h, hs) =
      >>=-Emits (body x) (λ _. for_each xs body) _ _ h
        (λ _ out (b, p, e).
          weaken-Emits (for_each xs body) _ _ (for_each-Emits xs body P hs)
            (λ _ more (l, q). rw e (omega (arith, l), (p, q))))
