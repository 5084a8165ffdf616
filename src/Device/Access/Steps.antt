-- ===== src/Device/Access/Steps.antt =====
-- Each access, as the program writes it, is a step of a script, at the address and with the bytes
-- that are given.
use tedium.Common.{
  ℕ, ◌+◌, ◌*◌, ◌<◌, ◌≡◌, ltb, ltb→lt, true, arith, ◌∙◌, bit_and, ◌==◌, ==_iff, Bool, ◌&&◌,
}
use tedium.Common.Outcome.{ok}
use tedium.Registers.Layout.{Layout}
use tedium.Registers.Bitfield.{Bitfield, arithmetic}
use tedium.Registers.Builder.{
  Setters, with_fields, fits, keeps, with_fields-arithmetic, with_fields-keeps,
}
use tedium.Device.Addressing.{global_0fex}
use tedium.Device.Addressing.Laws.{
  channel_nxxx_lem, channel_0fnx_lem, channel_nxxx_timeslot_lem, global_0fex_lem,
}
use tedium.Device.Accessors.{
  access_framer, access_liu, access_timeslot, TimeslotRegister, block_offset,
}
use tedium.Device.Globals.{GlobalRegister, global_address}
use tedium.Device.Access.{Xyz}
use tedium.Device.Access.Script.{
  store, alter, poll, DoesStep, write-DoesStep, modify-DoesStep, read-DoesStep, then-Does,
  last-Does, nothing-Does,
}
use tedium.Device.Access.Typed.{read_only, write_with, modify_with}

-- Where an access to the framer, the line interface unit or a timeslot goes.
framer-ok :
    (channel offset : ℕ)
    → channel < 8
    → ltb offset 0x1000 ≡ true
    → access_framer channel offset ≡ ok (channel * 4096 + offset)
unfolding access_framer
framer-ok channel offset l o = ground (arith, channel_nxxx_lem channel offset)

liu-ok :
    (channel offset : ℕ)
    → channel < 8
    → ltb offset 16 ≡ true
    → access_liu channel offset ≡ ok (0x0f00 + channel * 16 + offset)
unfolding access_liu
liu-ok channel offset l o = ground (arith, channel_0fnx_lem channel offset)

-- A block of registers, one for each timeslot.
abbrev is_block : ℕ → Bool
is_block b = bit_and b 15 == 0 && ltb b 0xfe0

timeslot-ok :
    (channel timeslot : ℕ) (register : TimeslotRegister) (b : ℕ)
    → channel < 8
    → timeslot < 24
    → block_offset register ≡ b
    → is_block b ≡ true
    → access_timeslot channel register timeslot ≡ ok (channel * 4096 + b + timeslot)
unfolding access_timeslot
timeslot-ok channel timeslot register b l t e h =
    rw e (ground (arith, channel_nxxx_timeslot_lem channel b timeslot))

block-lt : (b : ℕ) → is_block b ≡ true → b < 0xfe0
block-lt b h = ground arith

pub read_only-DoesStep :
    {S : Type 0} (device : Xyz S) (channel offset : ℕ)
    → channel < 8
    → ltb offset 0x1000 ≡ true
    → DoesStep device
        (read_only device (access_framer channel offset))
        (poll (channel * 4096 + offset))
unfolding read_only
read_only-DoesStep device channel offset l o =
    read-DoesStep device (channel * 4096 + offset) (framer-ok channel offset l o)
      (omega (arith, ltb→lt offset 0x1000))

module _ {S : Type 0} (bf : Bitfield) (device : Xyz S) (channel offset : ℕ) (layout : Layout)
    (setters : Setters) where
  pub write_framer-DoesStep :
      (v : ℕ)
      → channel < 8
      → ltb offset 0x1000 ≡ true
      → fits layout setters ≡ true
      → (with_fields arithmetic layout setters 0 == v) ≡ true
      → DoesStep device
          (write_with bf device (access_framer channel offset) layout setters)
          (store (channel * 4096 + offset) v)
  unfolding write_with
  write_framer-DoesStep v l o f e =
      write-DoesStep device (channel * 4096 + offset) (framer-ok channel offset l o)
        (omega (arith, ltb→lt offset 0x1000)) (with_fields bf layout setters) v
        (with_fields-arithmetic bf layout setters 0 f ∙ (==_iff _ v).0 e)

  pub modify_framer-DoesStep :
      (keep v : ℕ)
      → channel < 8
      → ltb offset 0x1000 ≡ true
      → fits layout setters ≡ true
      → keeps layout setters keep v ≡ true
      → DoesStep device
          (modify_with bf device (access_framer channel offset) layout setters)
          (alter (channel * 4096 + offset) keep v)
  unfolding modify_with
  modify_framer-DoesStep keep v l o f e =
      modify-DoesStep device (channel * 4096 + offset) (framer-ok channel offset l o)
        (omega (arith, ltb→lt offset 0x1000)) (with_fields bf layout setters) keep v
        (with_fields-keeps bf layout setters keep v f e)

  pub write_liu-DoesStep :
      (v : ℕ)
      → channel < 8
      → ltb offset 16 ≡ true
      → fits layout setters ≡ true
      → (with_fields arithmetic layout setters 0 == v) ≡ true
      → DoesStep device
          (write_with bf device (access_liu channel offset) layout setters)
          (store (0x0f00 + channel * 16 + offset) v)
  unfolding write_with
  write_liu-DoesStep v l o f e =
      write-DoesStep device (0x0f00 + channel * 16 + offset) (liu-ok channel offset l o)
        (omega (arith, ltb→lt offset 16)) (with_fields bf layout setters) v
        (with_fields-arithmetic bf layout setters 0 f ∙ (==_iff _ v).0 e)

  pub modify_liu-DoesStep :
      (keep v : ℕ)
      → channel < 8
      → ltb offset 16 ≡ true
      → fits layout setters ≡ true
      → keeps layout setters keep v ≡ true
      → DoesStep device
          (modify_with bf device (access_liu channel offset) layout setters)
          (alter (0x0f00 + channel * 16 + offset) keep v)
  unfolding modify_with
  modify_liu-DoesStep keep v l o f e =
      modify-DoesStep device (0x0f00 + channel * 16 + offset) (liu-ok channel offset l o)
        (omega (arith, ltb→lt offset 16)) (with_fields bf layout setters) keep v
        (with_fields-keeps bf layout setters keep v f e)

module _ {S : Type 0} (bf : Bitfield) (device : Xyz S) (channel timeslot : ℕ)
    (register : TimeslotRegister) (b : ℕ) (layout : Layout) (setters : Setters) where
  pub write_timeslot-DoesStep :
      (v : ℕ)
      → channel < 8
      → timeslot < 24
      → block_offset register ≡ b
      → is_block b ≡ true
      → fits layout setters ≡ true
      → (with_fields arithmetic layout setters 0 == v) ≡ true
      → DoesStep device
          (write_with bf device (access_timeslot channel register timeslot) layout setters)
          (store (channel * 4096 + b + timeslot) v)
  unfolding write_with
  write_timeslot-DoesStep v l t g o f e =
      write-DoesStep device (channel * 4096 + b + timeslot)
        (timeslot-ok channel timeslot register b l t g o) (omega (arith, block-lt b o))
        (with_fields bf layout setters) v
        (with_fields-arithmetic bf layout setters 0 f ∙ (==_iff _ v).0 e)

  pub modify_timeslot-DoesStep :
      (keep v : ℕ)
      → channel < 8
      → timeslot < 24
      → block_offset register ≡ b
      → is_block b ≡ true
      → fits layout setters ≡ true
      → keeps layout setters keep v ≡ true
      → DoesStep device
          (modify_with bf device (access_timeslot channel register timeslot) layout setters)
          (alter (channel * 4096 + b + timeslot) keep v)
  unfolding modify_with
  modify_timeslot-DoesStep keep v l t g o f e =
      modify-DoesStep device (channel * 4096 + b + timeslot)
        (timeslot-ok channel timeslot register b l t g o) (omega (arith, block-lt b o))
        (with_fields bf layout setters) keep v (with_fields-keeps bf layout setters keep v f e)

module _ {S : Type 0} (bf : Bitfield) (device : Xyz S) (offset : ℕ) (layout : Layout) where
  pub write_global-DoesStep :
      (setters : Setters) (register : GlobalRegister) (v : ℕ)
      → global_address register ≡ global_0fex offset
      → ltb offset 16 ≡ true
      → fits layout setters ≡ true
      → (with_fields arithmetic layout setters 0 == v) ≡ true
      → DoesStep device
          (write_with bf device (global_address register) layout setters)
          (store (0x0fe0 + offset) v)
  unfolding write_with
  write_global-DoesStep setters register v g o f e =
      write-DoesStep device (0x0fe0 + offset) (rw g (ground (arith, global_0fex_lem offset)))
        (omega (arith, ltb→lt offset 16)) (with_fields bf layout setters) v
        (with_fields-arithmetic bf layout setters 0 f ∙ (==_iff _ v).0 e)

-- Access by access, a sequence of accesses does what a script says.
pub ruleset accesses = (
  then-Does, last-Does, nothing-Does, read_only-DoesStep, write_framer-DoesStep,
  modify_framer-DoesStep, write_liu-DoesStep, modify_liu-DoesStep, write_timeslot-DoesStep,
  modify_timeslot-DoesStep,
)
