-- ===== src/RoundTrip.antt =====
-- Client and server together: requests that the client encodes are what the server decodes, and
-- responses that the server encodes are what the client decodes.
pub mod Requests
pub mod Messages
pub mod Responses
pub mod Lists
pub mod Both
use qq_copy.Base.{
  ℕ, ◌+◌, ◌<◌, ◌≤◌, ◌≡◌, ◌^◌, take, drop, refl, sym, ap, ◌∙◌, List, [], ◌++◌, length, arith,
  append_assoc,
}
use qq_copy.Base.Int.{ℤ}
use qq_copy.Outcome.{Outcome, ok}
use qq_copy.Wire.{read_uint32, write_uint16, write_uint32, write_int32, write_int64, write_string}
use qq_copy.Wire.RoundTrip.{At, At-le}
use qq_copy.Protocol
use qq_copy.Protocol.{CommandCode, Packet, header_size}
use qq_copy.Protocol.Packets.{IsPacket, IsCommand}
use qq_copy.ClientCodec
use qq_copy.Handlers.Dispatch.{header_packet}
use qq_copy.Events.Framing.{read_uint32-header, body-payload, packet_of_parts}

-- The first seven bytes are a header whose length field the server reads as the length of the rest;
-- from the header and the rest it makes a packet with this command; and the decoder of its payload
-- gives this request.
abbrev pub Delivers : {A : Type 0} → List ℕ → CommandCode → (List ℕ → Outcome A) → A → Type 0
Delivers bytes command decoder request =
    (packet : Packet) × (read_uint32 (take header_size bytes) 3
      ≡ ok (length (drop header_size bytes)))
    × (header_packet (take header_size bytes) (drop header_size bytes) ≡ ok packet)
    × (packet.command ≡ command)
    × (decoder packet.payload ≡ ok request)

-- Both sides write packets alike.
pub encode-eq :
    (c : CommandCode) (payload : List ℕ)
    → ClientCodec.encode c payload
      ≡ Protocol.encode (record { version = 1; command = c; payload = payload })
unfolding ClientCodec.encode Protocol.encode
encode-eq c payload = refl

pub delivers :
    {A : Type 0} (c : CommandCode) (payload : List ℕ) (decoder : List ℕ → Outcome A) (request : A)
    → IsCommand c
    → length payload < 2 ^ 32
    → decoder payload ≡ ok request
    → Delivers (ClientCodec.encode c payload) c decoder request
delivers c payload decoder request hc hl e =
    let packet : Packet = record { version = 1; command = c; payload = payload } in
    let fits : IsPacket packet = record {
      version_fits = omega arith;
      command_fits = hc;
      payload_fits = hl;
    } in
    let parts : List ℕ → List ℕ × List ℕ = λ b. (take header_size b, drop header_size b) in
    let same = ap parts (encode-eq c payload) in
    (
      packet,
      ap (λ p. read_uint32 p.0 3) same
          ∙ read_uint32-header packet fits
          ∙ ap ok (ap length (sym (body-payload packet fits) ∙ ap (λ p. p.1) (sym same))),
      ap (λ p. header_packet p.0 p.1) same ∙ packet_of_parts packet fits,
      refl,
      e,
    )

-- The writers append: what they write does not depend on the buffer.
pub write_uint16-append :
    (buffer : List ℕ) (v : ℕ) → write_uint16 buffer v ≡ buffer ++ write_uint16 [] v
unfolding write_uint16
write_uint16-append buffer v = refl

pub write_uint32-append :
    (buffer : List ℕ) (v : ℕ) → write_uint32 buffer v ≡ buffer ++ write_uint32 [] v
unfolding write_uint32
write_uint32-append buffer v = refl

pub write_int32-append :
    (buffer : List ℕ) (v : ℤ) → write_int32 buffer v ≡ buffer ++ write_int32 [] v
unfolding write_int32
write_int32-append buffer v = refl

pub write_string-append :
    (buffer str : List ℕ) → write_string buffer str ≡ buffer ++ write_string [] str
unfolding write_string
write_string-append buffer str = append_assoc buffer _ str

pub write_int64-append :
    (buffer : List ℕ) (v : ℤ) → write_int64 buffer v ≡ buffer ++ write_int64 [] v
unfolding write_int64
write_int64-append buffer v = simp append_assoc

pub length-write_string : (str : List ℕ) → length (write_string [] str) ≡ 2 + length str
unfolding write_string
length-write_string str = omega arith

pub At-start : (bytes rest : List ℕ) → bytes ≡ rest → At bytes 0 rest
At-start bytes rest e = (e, omega (arith, ap length e))

-- There is room for the length where a counted string follows.
pub At-string :
    (bytes : List ℕ) (offset : ℕ) (str rest : List ℕ)
    → At bytes offset (write_string [] str ++ rest)
    → offset + 2 + length str ≤ length bytes
At-string bytes offset str rest h =
    omega (arith, At-le bytes offset (write_string [] str) rest h, length-write_string str)
