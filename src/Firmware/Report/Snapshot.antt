-- ===== src/Firmware/Report/Snapshot.antt =====
-- What the status of a channel shows of a chip whose registers keep their values: the reads of the
-- main loop of tedium-soc/src/main.rs, by the fields of
-- tedium/tools/tedium-tool/src/framer/interrupt.rs.
use tedium.Common.{
  ℕ, ◌+◌, ◌*◌, ◌%◌, Option, none, some, [], ◌∷◌, replicate, ◌==◌, u8, range, if◌then◌else◌,
}
use mathlib.Core.List.{map}
use Prim.Native.String.{String}
use tedium.Registers.Bitfield.{Bitfield, get_field}
use tedium.Registers.Framing.{rdlbcr_layout}
use tedium.Registers.Counters.{bisr_layout, fisr_layout}
use tedium.Interrupt.{FramerInterruptStatus, HdlcControllerStatus, T1FrameStatus}
use tedium.Firmware.Effect.{Bus}

-- A chip that answers each read with the word at the address, and does not change.
abbrev pub keeping : (ℕ → ℕ) → Bus (Unit {0})
keeping memory address s = (memory address, s)

-- The register whose buffer RBUFPTR names.
abbrev pub buffer_at : ℕ → ℕ
buffer_at rbufptr = if rbufptr == 0 then 0x600 else 0x700

abbrev pub flagged : {A : Type 0} → ℕ → A → Option A
flagged flag a = if flag == 0 then none else some a

module _ (bf : Bitfield) (memory : ℕ → ℕ) (c : ℕ) where
  -- The byte of the register at an offset in the page of the channel.
  abbrev pub at : ℕ → ℕ
  at o = u8 (memory (c * 4096 + o))

  -- The byte at the start of the buffer that RBUFPTR names stands as often as RDLBC says.
  abbrev pub controller : ℕ → ℕ → ℕ → HdlcControllerStatus
  controller dlsr_at rdlbcr_at ss7sr_at = record {
    dlsr = at dlsr_at;
    rdlbcr = at rdlbcr_at;
    data_bytes =
        replicate (get_field bf rdlbcr_layout "RDLBC" (at rdlbcr_at))
          (at (buffer_at (get_field bf rdlbcr_layout "RBUFPTR" (at rdlbcr_at))));
    ss7sr = at ss7sr_at;
  }

  abbrev pub t1frame : T1FrameStatus
  t1frame = record {
    fisr = at 0xb04;
    sig =
        flagged (get_field bf fisr_layout "SIG" (at 0xb04))
          (record { rsars = map (λ i. at (0x500 + i) % 16) (range 0 24) });
  }

  -- The registers that the status of the channel shows, by their addresses.
  abbrev pub snapshot : FramerInterruptStatus
  snapshot =
      let flag = λ (name : String). get_field bf bisr_layout name (at 0xb00) in
      record {
        channel_index = c;
        bisr = at 0xb00;
        lbcode = flagged (flag "LBCODE") (record {
          rlcisrs =
              at 0xb0a
              ∷ at 0xb14
              ∷ at 0xb1a
              ∷ at 0xb1c
              ∷ at 0xb1e
              ∷ at 0xb20
              ∷ at 0xb22
              ∷ at 0xb24
              ∷ [];
        });
        hdlc = flagged (flag "HDLC") (record {
          controller_0 = controller 0xb06 0x115 0xb10;
          controller_1 = controller 0xb16 0x145 0xb18;
          controller_2 = controller 0xb26 0x155 0xb28;
        });
        slip = flagged (flag "SLIP") (record { sbisr = at 0xb08 });
        alarm =
            flagged (flag "ALARM")
              (record { aeisr = at 0xb02; exzsr = at 0xb0e; ciasr = at 0xb40 });
        t1frame = flagged (flag "T1FRAME") t1frame;
      }
