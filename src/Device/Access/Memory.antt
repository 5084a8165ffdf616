-- ===== src/Device/Access/Memory.antt =====
-- A chip whose registers hold what is written to them, as the data sheet says of the registers that
-- are not status: what a script leaves in them.
use tedium.Common.{
  ℕ, ◌+◌, ◌*◌, ◌-◌, ◌/◌, ◌<◌, ◌≡◌, ◌≢◌, refl, ltb, leb, true, ◌&&◌, ◌==◌, if◌then◌else◌, List, [],
  ◌∷◌, ◌++◌, All, arith, u8, bit_and, bit_or, ◌∙◌, ap, sym,
}
use tedium.Device.Access.{Action, Xyz, done, ◌>>=◌}
use tedium.Device.Access.Script.{Step, store, alter, poll, play_step, play, concat_map}

abbrev pub Registers : Type 0
Registers = ℕ → ℕ

abbrev pub overwrite : Registers → ℕ → ℕ → Registers
overwrite r a v b = if a == b then v else r b

-- Reads and writes that succeed, over registers that a state shows.
pub record Memory {S : Type 0} (device : Xyz S) : Type 0 where
  pub registers : S → Registers
  pub read_lem :
      (a : ℕ) (s : S)
      → (s' : S) × (device.register_read a s ≡ done (registers s a) s')
        × (registers s' ≡ registers s)
  pub write_lem :
      (a v : ℕ) (s : S)
      → (s' : S) × (device.register_write a v s ≡ done tt s')
        × (registers s' ≡ overwrite (registers s) a v)

-- A chip that is such a memory.
abbrev pub ram : Xyz Registers
ram = record {
  register_read = λ a r. done (r a) r;
  register_write = λ a v r. done tt (overwrite r a v);
}

abbrev pub ram_memory : Memory ram
ram_memory = record {
  registers = λ r. r;
  read_lem = λ a r. (r, refl, refl);
  write_lem = λ a v r. (overwrite r a v, refl, refl);
}

-- The registers after a step, and after a script.
unfoldable pub step_to : Step → Registers → Registers
step_to (store a v) r = overwrite r a v
step_to (alter a keep v) r = overwrite r a (bit_or (bit_and (u8 (r a)) keep) v)
step_to (poll a) r = r

unfoldable pub run_to : List Step → Registers → Registers
run_to [] r = r
run_to (x ∷ xs) r = run_to xs (step_to x r)

module _ {S : Type 0} (device : Xyz S) (memory : Memory device) where
  -- An action ends, and leaves registers.
  abbrev pub Leaves : Action S (Unit {0}) → S → Registers → Type 0
  Leaves m s r = (s' : S) × (m s ≡ done tt s') × (memory.registers s' ≡ r)

  play_step-Leaves :
      (x : Step) (s : S) → Leaves (play_step device x) s (step_to x (memory.registers s))
  unfolding play_step step_to ◌>>=◌
  play_step-Leaves (store a v) s = memory.write_lem a v s
  play_step-Leaves (alter a keep v) s =
      let (s', e, f) = memory.read_lem a s in
      let (s'', g, h) =
        memory.write_lem a (bit_or (bit_and (u8 (memory.registers s a)) keep) v) s' in
      (s'', rw e g, rw h (rw f refl))
  play_step-Leaves (poll a) s = let (s', e, f) = memory.read_lem a s in (s', rw e refl, f)

  pub play-Leaves :
      (xs : List Step) (s : S) → Leaves (play device xs) s (run_to xs (memory.registers s))
  unfolding play run_to ◌>>=◌
  play-Leaves [] s = (s, refl, refl)
  play-Leaves (x ∷ xs) s =
      let (s', e, f) = play_step-Leaves x s in
      let (s'', g, h) = play-Leaves xs s' in (s'', rw e g, h ∙ ap (run_to xs) f)

abbrev pub address_of : Step → ℕ
address_of (store a v) = a
address_of (alter a keep v) = a
address_of (poll a) = a

-- The channel that an address belongs to: by its row in the line interface unit, or by its page.
pub owner : ℕ → ℕ
owner a = if leb 0xf00 a && ltb a 0xf80 then (a - 0xf00) / 16 else a / 4096

pub owner-framer :
    (channel offset : ℕ) → ltb offset 0xf00 ≡ true → owner (channel * 4096 + offset) ≡ channel
unfolding owner
owner-framer channel offset l = ground arith

pub owner-timeslot :
    (channel block timeslot : ℕ)
    → timeslot < 24
    → ltb block 0xe00 ≡ true
    → owner (channel * 4096 + block + timeslot) ≡ channel
unfolding owner
owner-timeslot channel block timeslot l b = ground arith

pub owner-liu :
    (channel offset : ℕ)
    → channel < 8
    → ltb offset 16 ≡ true
    → owner (0x0f00 + channel * 16 + offset) ≡ channel
unfolding owner
owner-liu channel offset l o = ground arith

-- Every step is on a register of the channel.
abbrev pub StaysIn : ℕ → List Step → Type 0
StaysIn channel xs = All (λ x. owner (address_of x) ≡ channel) xs

pub append-StaysIn :
    (channel : ℕ) (xs ys : List Step)
    → StaysIn channel xs
    → StaysIn channel ys
    → StaysIn channel (xs ++ ys)
append-StaysIn channel [] ys h k = k
append-StaysIn channel (x ∷ xs) ys (h, hs) k = (h, append-StaysIn channel xs ys hs k)

pub concat_map-StaysIn :
    (channel : ℕ) (f : ℕ → List Step) (xs : List ℕ)
    → All (λ x. StaysIn channel (f x)) xs
    → StaysIn channel (concat_map f xs)
unfolding concat_map
concat_map-StaysIn channel f [] h = tt
concat_map-StaysIn channel f (x ∷ xs) (h, hs) =
    append-StaysIn channel (f x) (concat_map f xs) h (concat_map-StaysIn channel f xs hs)

step_to-other : (x : Step) (r : Registers) (b : ℕ) → address_of x ≢ b → step_to x r b ≡ r b
unfolding step_to
step_to-other (store a v) r b n = ground arith
step_to-other (alter a keep v) r b n = ground arith
step_to-other (poll a) r b n = refl

-- A script that stays in one channel leaves the registers of the others alone.
pub run_to-StaysIn :
    (channel : ℕ) (xs : List Step) (r : Registers) (b : ℕ)
    → StaysIn channel xs
    → owner b ≢ channel
    → run_to xs r b ≡ r b
unfolding run_to
run_to-StaysIn channel [] r b h n = refl
run_to-StaysIn channel (x ∷ xs) r b (h, hs) n =
    run_to-StaysIn channel xs (step_to x r) b hs n
    ∙ step_to-other x r b (λ e. n (ap owner (sym e) ∙ h))
