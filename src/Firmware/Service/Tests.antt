-- ===== src/Firmware/Service/Tests.antt =====
-- Requests on a board whose endpoint of the responses is busy and whose register 0x2300 fails.
use tedium.Common.{ℕ, ◌≡◌, refl, true, false, not, ◌==◌, List, [], ◌∷◌, none, some, arith}
use tedium.Common.{if◌then◌else◌}
use tedium.Common.Outcome.{ok}
use tedium.Firmware.Effect.{Ends, ◌>>=◌}
use tedium.Firmware.Request.{parse_host_request, read, read_request}
use tedium.Firmware.Request.Fifo.{fifo}
use tedium.Firmware.Service.{
  Board, write_str, write_fifo, transmit, set_stall, set_prime, set_enable, chip_read, read_chip,
  serve, emit, ask, access, prepare, answer, request, rearm,
}
use tedium.Firmware.Service.Sound.{Serves, serve-Serves}

abbrev board : Board (List ℕ)
board = record {
  usb_out = fifo;
  get_enable = λ _. 0;
  get_data_ep = λ _. 3;
  is_stalled = λ _. false;
  is_idle = λ _. false;
  is_fifo_empty = λ _. true;
  register_read = λ a s. (if a == 0x2300 then none else some 0x15a, s);
  register_write = λ a _ s. (not (a == 0x2300), s);
  perform = λ _ s. s;
  perform-Holds = λ _ _ _ _ h. h;
}

abbrev packet : List ℕ
packet = 0 ∷ 0x01 ∷ 0x23 ∷ []

-- A response of one byte, after a warning.
serve_read :
    serve board packet
    ≡ ok (
      tt,
      write_str "IN: !idle\n"
          ∷ chip_read 0x2301 (some 0x15a)
          ∷ write_fifo 0x5a
          ∷ transmit 3
          ∷ set_stall 0
          ∷ set_prime 1
          ∷ set_enable 1
          ∷ [],
      [],
    )
unfolding serve read_chip emit ask access prepare answer request rearm ◌>>=◌ parse_host_request
    read_request read
serve_read = refl

serve-Serves_example : Ends (serve board) packet (λ _ out _. Serves true true packet out)
serve-Serves_example = serve-Serves board packet packet (refl, omega arith)
