-- ===== src/Events/Framing.antt =====
-- How a connection cuts the stream into packets (Connection::do_read_header and do_read_body,
-- server/src/connection_manager.cpp): a header is read, its length decides, and the body follows.
use mathlib.Core.Option
use qq_copy.Base.{
  ℕ, ◌*◌, ◌<◌, ◌≤◌, ◌%◌, ◌^◌, ◌≡◌, refl, sym, ap, ◌∙◌, ◌⊎◌, inl, inr, List, [], ◌∷◌, ◌++◌, length,
  take, drop, none, some, arith, ltb, ltb→lt, lt→ltb, nat_eq, text_eq, Bool-cases,
}
use qq_copy.Base.Int.{ℤ}
use qq_copy.Base.Assoc.{lookup}
use qq_copy.Outcome.{ok}
use qq_copy.Wire.{read_uint32, write_uint16, write_uint32}
use qq_copy.Wire.RoundTrip.{At, byte_at-At, read_uint16-write_uint16, read_uint32-write_uint32}
use qq_copy.Protocol.{Packet, encode, header_size, command_value}
use qq_copy.Protocol.Packets.{IsPacket, command_value-lt, command_code-command_value}
use qq_copy.Services.{Services}
use qq_copy.Server.{
  Server, Connection, reading_body, not_reading, read_header_done, accept_header, do_read_header,
  update, manager_stop, get_id,
}
use qq_copy.Server.Objects.{lookup-update_self, get_id-update, lookup-manager_stop}
use qq_copy.Handlers.Dispatch.{header_packet, handle_message, read_body_done}

-- The two parts in which a packet is read.
abbrev pub header : Packet → List ℕ
header p = take header_size (encode p)

abbrev pub body : Packet → List ℕ
body p = drop header_size (encode p)

module _ (p : Packet) (fits : IsPacket p) where
  header-command : At (header p) 1 (write_uint16 [] (command_value p.command) ++ drop 3 (header p))
  unfolding encode write_uint16 write_uint32
  header-command = (refl, omega arith)

  header-version : At (header p) 0 (p.version ∷ drop 1 (header p))
  unfolding encode write_uint16 write_uint32
  header-version = (refl, omega arith)

  header-length : At (header p) 3 (write_uint32 [] (length p.payload % 2 ^ 32) ++ [])
  unfolding encode write_uint16 write_uint32
  header-length = (refl, omega arith)

  pub body-payload : body p ≡ p.payload
  unfolding encode write_uint16 write_uint32
  body-payload = refl

  pub read_uint32-header : read_uint32 (header p) 3 ≡ ok (length p.payload)
  read_uint32-header =
      read_uint32-write_uint32 (header p) 3 (length p.payload % 2 ^ 32) [] (omega arith)
        header-length
      ∙ ap ok (omega (arith, fits.payload_fits))

  pub packet_of_parts : header_packet (header p) (body p) ≡ ok p
  unfolding header_packet
  packet_of_parts = rw (byte_at-At (header p) 0 p.version _ header-version) (
      rw
        (read_uint16-write_uint16 (header p) 1 (command_value p.command) _
          (command_value-lt p.command fits.command_fits) header-command)
        (rw (command_code-command_value p.command fits.command_fits, body-payload)))

  read_header_done-header :
      {S : Services} (h : ℕ) (s : Server S)
      → read_header_done h (header p) s ≡ accept_header h (header p) (length p.payload) s
  unfolding read_header_done
  read_header_done-header h s = rw (read_uint32-header, read_header_done)

accept_header_good :
    {S : Services} (h : ℕ) (hd : List ℕ) (n : ℕ) (s : Server S)
    → 0 < n
    → n < 2 ^ 20
    → accept_header h hd n s
      ≡ update h (λ conn. record conn { header_buffer = hd; reading = reading_body n }) s
unfolding accept_header
accept_header_good h hd n s lo hi = rw (lt→ltb 0 n lo, lt→ltb n (1024 * 1024) hi)

accept_header_bad :
    {S : Services} (h : ℕ) (hd : List ℕ) (n : ℕ) (s : Server S)
    → (n ≡ 0) ⊎ (2 ^ 20 ≤ n)
    → accept_header h hd n s
      ≡ manager_stop h
          (update h (λ conn. record conn { header_buffer = hd; reading = not_reading }) s)
unfolding accept_header
accept_header_bad h hd n s bad = ground arith

-- The connection waits for the body, and the packet is handled when it has come.
abbrev pub HandlesPacket : {S : Services} → Packet → ℕ → Server S → Connection → Type 0
HandlesPacket {S} p h s conn =
    (lookup h (read_header_done h (header p) s).objects
      ≡ some (record conn { header_buffer = header p; reading = reading_body (length (body p)) }))
    × ((now : ℤ) (t : Server S)
        → read_body_done h (header p) (body p) now t
          ≡ Option.map (do_read_header h) (handle_message h p now t))

-- The connection is no longer registered.
abbrev pub Unregisters : {S : Services} → Packet → ℕ → Server S → Type 0
Unregisters p h s = lookup (get_id h s) (read_header_done h (header p) s).connections ≡ none

module _ {S : Services} (p : Packet) (h : ℕ) (s : Server S) (fits : IsPacket p) where
  packet_is_read :
      (conn : Connection)
      → 0 < length p.payload
      → length p.payload < 2 ^ 20
      → lookup h s.objects ≡ some conn
      → HandlesPacket p h s conn
  unfolding read_body_done accept_header
  packet_is_read conn some_bytes few_bytes e = (
    rw (read_header_done-header p fits h s) (
        rw
          (
            accept_header_good h (header p) (length p.payload) s some_bytes few_bytes,
            body-payload p fits,
          )
          (lookup-update_self h _ s e)),
    λ now t. rw (packet_of_parts p fits, read_body_done),
  )

  packet_is_refused : (length p.payload ≡ 0) ⊎ (2 ^ 20 ≤ length p.payload) → Unregisters p h s
  packet_is_refused size =
      let drops : Connection → Connection =
        λ conn. record conn { header_buffer = header p; reading = not_reading } in
      rw (read_header_done-header p fits h s) (
        rw (accept_header_bad h (header p) (length p.payload) s size) (
          ap (λ id. lookup id (manager_stop h (update h drops s)).connections)
            (sym (get_id-update h h drops s (λ c. refl)))
          ∙ lookup-manager_stop h (update h drops s)))

-- A connection that has read the header of a packet does one of two things. If the payload has 1
-- to 2^20 - 1 bytes, it waits for a body of that size and keeps the header; when the body has come,
-- in whatever state of the server, the packet that was sent is handled, and the next header is asked
-- for. If the packet has no payload, or one of 2^20 bytes or more, the connection is no longer
-- registered: no user's message can be sent to it.
pub packet_is_read_or_refused :
    {S : Services} (p : Packet) (h : ℕ) (s : Server S) (conn : Connection)
    → IsPacket p
    → lookup h s.objects ≡ some conn
    → ((0 < length p.payload) × (length p.payload < 2 ^ 20) × HandlesPacket p h s conn)
      ⊎ (((length p.payload ≡ 0) ⊎ (2 ^ 20 ≤ length p.payload)) × Unregisters p h s)
packet_is_read_or_refused p h s conn fits e = elim (Bool-cases (ltb 0 (length p.payload))) [
  | inl some_bytes ↦ elim (Bool-cases (ltb (length p.payload) (2 ^ 20))) [
    | inl few ↦
        let lo = ltb→lt 0 (length p.payload) some_bytes in
        let hi = ltb→lt (length p.payload) (2 ^ 20) few in
        inl (lo, hi, packet_is_read p h s fits conn lo hi e)
    | inr many ↦
        let size : (length p.payload ≡ 0) ⊎ (2 ^ 20 ≤ length p.payload) = inr (ground arith) in
        inr (size, packet_is_refused p h s fits size)
  ]
  | inr empty ↦
      let size : (length p.payload ≡ 0) ⊎ (2 ^ 20 ≤ length p.payload) = inl (ground arith) in
      inr (size, packet_is_refused p h s fits size)
]
