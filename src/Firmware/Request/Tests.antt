-- ===== src/Firmware/Request/Tests.antt =====
-- Packets in a list.
use tedium.Common.{◌≡◌, refl, [], ◌∷◌, arith}
use tedium.Firmware.Request.{parse_host_request}
use tedium.Firmware.Request.Fifo.{fifo}
use tedium.Firmware.Request.Parse.{decode, parse_host_request-decode}

parse_host_request-decode_example :
    (parse_host_request fifo (0 ∷ 0x34 ∷ [])).0 ≡ decode (0 ∷ 0x34 ∷ [])
parse_host_request-decode_example =
    parse_host_request-decode fifo (0 ∷ 0x34 ∷ []) (0 ∷ 0x34 ∷ []) (refl, omega arith)
