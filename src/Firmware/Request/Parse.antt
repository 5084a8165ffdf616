-- ===== src/Firmware/Request/Parse.antt =====
-- Which packets are requests.
use tedium.Common.{
  ℕ, ◌+◌, ◌*◌, ◌^◌, ◌/◌, ◌%◌, ◌<◌, ◌≡◌, refl, ◌∙◌, ◌==◌, Bool-cases, inl, inr, List, [], ◌∷◌, ◌++◌,
  bit_or, bit_or-shifted, arith, if◌then◌else◌, All,
}
use tedium.Firmware.Request.{
  short_packet, invalid_command, HostRequestCommand, register_read, register_write,
  HostRequestResult, ok, err, EndpointOut, read, read_request, write_request, parse_host_request,
}

abbrev decode_read : List ℕ → HostRequestResult HostRequestCommand
decode_read [] = err short_packet
decode_read (l ∷ []) = err short_packet
decode_read (l ∷ h ∷ rest) = ok (register_read (h * 256 + l))

abbrev decode_write : List ℕ → HostRequestResult HostRequestCommand
decode_write [] = err short_packet
decode_write (l ∷ []) = err short_packet
decode_write (l ∷ h ∷ []) = err short_packet
decode_write (l ∷ h ∷ value ∷ rest) = ok (register_write (h * 256 + l) value)

-- The request in the bytes of a packet: a command, the address with the low byte first, and the
-- value for a write. Bytes that follow are ignored.
unfoldable pub decode : List ℕ → HostRequestResult HostRequestCommand
decode [] = err short_packet
decode (command ∷ bytes) =
    if command == 0
    then decode_read bytes
    else if command == 1
    then decode_write bytes
    else err invalid_command

-- The packet of a command.
unfoldable pub encode : HostRequestCommand → List ℕ
encode (register_read address) = 0 ∷ (address % 256) ∷ (address / 256) ∷ []
encode (register_write address value) = 1 ∷ (address % 256) ∷ (address / 256) ∷ value ∷ []

-- The commands whose parts fit their bytes.
abbrev pub IsCommand : HostRequestCommand → Type 0
IsCommand (register_read address) = address < 2 ^ 16
IsCommand (register_write address value) = (address < 2 ^ 16) × (value < 256)

-- The parts of a request, where it is one, fit their bytes.
abbrev pub Fits : HostRequestResult HostRequestCommand → Type 0
Fits (ok c) = IsCommand c
Fits (err e) = Unit

decode_read-Fits : (bytes : List ℕ) → All (λ b. b < 256) bytes → Fits (decode_read bytes)
decode_read-Fits [] h = tt
decode_read-Fits (l ∷ []) h = tt
decode_read-Fits (l ∷ m ∷ rest) (h, (k, _)) = omega arith

decode_write-Fits : (bytes : List ℕ) → All (λ b. b < 256) bytes → Fits (decode_write bytes)
decode_write-Fits [] h = tt
decode_write-Fits (l ∷ []) h = tt
decode_write-Fits (l ∷ m ∷ []) h = tt
decode_write-Fits (l ∷ m ∷ v ∷ rest) (h, (k, (i, _))) = (omega arith, i)

pub decode-Fits : (bytes : List ℕ) → All (λ b. b < 256) bytes → Fits (decode bytes)
unfolding decode
decode-Fits [] h = tt
decode-Fits (command ∷ bytes) (_, h) = elim (Bool-cases (command == 0)) [
  | inl e ↦ rw e (decode_read-Fits bytes h)
  | inr n ↦ elim (Bool-cases (command == 1)) [
    | inl e ↦ rw (n, e) (decode_write-Fits bytes h)
    | inr m ↦ rw (n, m) tt
  ]
]

decode-encode :
    (c : HostRequestCommand) (rest : List ℕ) → IsCommand c → decode (encode c ++ rest) ≡ ok c
unfolding decode encode
decode-encode (register_read address) rest h =
    let e : address / 256 * 256 + address % 256 ≡ address = omega arith in rw e refl
decode-encode (register_write address value) rest h =
    let e : address / 256 * 256 + address % 256 ≡ address = omega arith in rw e refl

module _ {S : Type 0} (ep : EndpointOut S) where
  read-empty : (s : S) → ep.Holds s [] → read ep s ≡ (err short_packet, s)
  unfolding read
  read-empty s h = ground (arith, ep.have-empty s h)

  read-byte :
      (s : S) (b : ℕ) (bs : List ℕ)
      → ep.Holds s (b ∷ bs)
      → (s' : S) × (read ep s ≡ (ok b, s')) × ep.Holds s' bs × (b < 256)
  unfolding read
  read-byte s b bs h =
      let (e, rest) = ep.take_data-first s b bs h in
      ((ep.take_data s).1, ground (arith, ep.have-more s b bs h, e), rest, omega (arith, e))

  pub Holds-bytes : (s : S) (bytes : List ℕ) → ep.Holds s bytes → All (λ b. b < 256) bytes
  Holds-bytes s [] h = tt
  Holds-bytes s (b ∷ bytes) h =
      let (e, rest) = ep.take_data-first s b bytes h in
      (omega (arith, e), Holds-bytes (ep.take_data s).1 bytes rest)

  address : (l h : ℕ) → l < 256 → bit_or (h * 2 ^ 8) l ≡ h * 256 + l
  address l h k = bit_or-shifted 8 h l (omega arith)

  read_request-decode :
      (s : S) (bytes : List ℕ) → ep.Holds s bytes → (read_request ep s).0 ≡ decode_read bytes
  unfolding read_request
  read_request-decode s [] h = rw (read-empty s h) refl
  read_request-decode s (l ∷ []) h =
      let (s_1, e_1, h_1, _) = read-byte s l [] h in rw (e_1, read-empty s_1 h_1) refl
  read_request-decode s (l ∷ m ∷ rest) h =
      let (s_1, e_1, h_1, k) = read-byte s l (m ∷ rest) h in
      let (s_2, e_2, h_2, _) = read-byte s_1 m rest h_1 in rw (e_1, e_2, address l m k) refl

  write_request-decode :
      (s : S) (bytes : List ℕ) → ep.Holds s bytes → (write_request ep s).0 ≡ decode_write bytes
  unfolding write_request
  write_request-decode s [] h = rw (read-empty s h) refl
  write_request-decode s (l ∷ []) h =
      let (s_1, e_1, h_1, _) = read-byte s l [] h in rw (e_1, read-empty s_1 h_1) refl
  write_request-decode s (l ∷ m ∷ []) h =
      let (s_1, e_1, h_1, k) = read-byte s l (m ∷ []) h in
      let (s_2, e_2, h_2, _) = read-byte s_1 m [] h_1 in rw (e_1, e_2, read-empty s_2 h_2) refl
  write_request-decode s (l ∷ m ∷ v ∷ rest) h =
      let (s_1, e_1, h_1, k) = read-byte s l (m ∷ v ∷ rest) h in
      let (s_2, e_2, h_2, _) = read-byte s_1 m (v ∷ rest) h_1 in
      let (s_3, e_3, h_3, _) = read-byte s_2 v rest h_2 in rw (e_1, e_2, e_3, address l m k) refl

  -- Whatever bytes the endpoint holds, the firmware takes them for the request that the format
  -- says, or refuses them as short or invalid where it has none.
  pub parse_host_request-decode :
      (s : S) (bytes : List ℕ) → ep.Holds s bytes → (parse_host_request ep s).0 ≡ decode bytes
  unfolding parse_host_request decode
  parse_host_request-decode s [] h = rw (read-empty s h) refl
  parse_host_request-decode s (command ∷ bytes) h =
      let (s_1, e_1, h_1, _) = read-byte s command bytes h in
      rw e_1 (elim (Bool-cases (command == 0)) [
        | inl zero_e ↦ rw zero_e (read_request-decode s_1 bytes h_1)
        | inr not_zero ↦ elim (Bool-cases (command == 1)) [
          | inl one_e ↦ rw (not_zero, one_e) (write_request-decode s_1 bytes h_1)
          | inr not_one ↦ rw (not_zero, not_one) refl
        ]
      ])

  -- A packet that begins with the bytes of a command is that command, whatever follows.
  pub parse_host_request-encode :
      (s : S) (c : HostRequestCommand) (rest : List ℕ)
      → IsCommand c
      → ep.Holds s (encode c ++ rest)
      → (parse_host_request ep s).0 ≡ ok c
  parse_host_request-encode s c rest h holds =
      parse_host_request-decode s (encode c ++ rest) holds ∙ decode-encode c rest h
