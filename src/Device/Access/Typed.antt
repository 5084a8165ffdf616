-- ===== src/Device/Access/Typed.antt =====
-- The accesses as the program writes them: an accessor, `write` or `modify`, and a chain of setters.
use tedium.Common.{ℕ}
use tedium.Common.Outcome.{Outcome}
use tedium.Registers.Layout.{Layout}
use tedium.Registers.Bitfield.{Bitfield}
use tedium.Registers.Builder.{Setters, with_fields}
use tedium.Device.Offsets.{FramerRegister, framer_offset, LiuRegister, liu_offset}
use tedium.Device.Accessors.{access_framer, access_liu, access_timeslot, TimeslotRegister}
use tedium.Device.Globals.{GlobalRegister, global_address}
use tedium.Device.Access.{Action, Xyz, ◌>>=◌, pure, read, write, modify}

module _ {S : Type 0} (bf : Bitfield) (device : Xyz S) where
  -- `register.write(|w| w …)` and `register.modify(|m| m …)`, with a chain of setters.
  unfoldable pub write_with : Outcome ℕ → Layout → Setters → Action S (Unit {0})
  write_with address layout setters = write device address (with_fields bf layout setters)

  unfoldable pub modify_with : Outcome ℕ → Layout → Setters → Action S (Unit {0})
  modify_with address layout setters = modify device address (with_fields bf layout setters)

module _ {S : Type 0} (bf : Bitfield) (device : Xyz S) where
  -- `device.REGISTER().write(|w| w …)`.
  abbrev pub write_global : GlobalRegister → Layout → Setters → Action S (Unit {0})
  write_global register layout setters =
      write_with bf device (global_address register) layout setters

module _ {S : Type 0} (bf : Bitfield) (device : Xyz S) (channel : ℕ) where
  -- `channel.REGISTER().write(|w| w …)`, of the framer and of the line interface unit.
  abbrev pub write_framer : FramerRegister → Layout → Setters → Action S (Unit {0})
  write_framer register layout setters =
      write_with bf device (access_framer channel (framer_offset register)) layout setters

  abbrev pub write_liu : LiuRegister → Layout → Setters → Action S (Unit {0})
  write_liu register layout setters =
      write_with bf device (access_liu channel (liu_offset register)) layout setters

  -- `channel.REGISTER().modify(|m| m …)`.
  abbrev pub modify_framer : FramerRegister → Layout → Setters → Action S (Unit {0})
  modify_framer register layout setters =
      modify_with bf device (access_framer channel (framer_offset register)) layout setters

  abbrev pub modify_liu : LiuRegister → Layout → Setters → Action S (Unit {0})
  modify_liu register layout setters =
      modify_with bf device (access_liu channel (liu_offset register)) layout setters

  -- `timeslot.REGISTER().write(|w| w …)` and `modify`.
  abbrev pub write_timeslot : ℕ → TimeslotRegister → Layout → Setters → Action S (Unit {0})
  write_timeslot timeslot register layout setters =
      write_with bf device (access_timeslot channel register timeslot) layout setters

  abbrev pub modify_timeslot : ℕ → TimeslotRegister → Layout → Setters → Action S (Unit {0})
  modify_timeslot timeslot register layout setters =
      modify_with bf device (access_timeslot channel register timeslot) layout setters

module _ {S : Type 0} (device : Xyz S) where
  -- `register.read()?;`.
  unfoldable pub read_only : Outcome ℕ → Action S (Unit {0})
  read_only address = read device address >>= λ _. pure tt
