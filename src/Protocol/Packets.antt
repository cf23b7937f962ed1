-- ===== src/Protocol/Packets.antt =====
-- The packet codec of the server: round trips and safety.
use qq_copy.Base.{ℕ, ◌+◌, ◌<◌, ◌≡◌, ◌^◌, ◌%◌, refl, arith, [], ◌∷◌, ◌++◌, length, drop, ==_iff}
use qq_copy.Outcome.{ok, guard-le}
use qq_copy.Wire.{write_uint16, write_uint32}
use qq_copy.Wire.RoundTrip.{At, byte_at-At, read_uint16-write_uint16, read_uint32-write_uint32}
use qq_copy.Protocol.{
  CommandCode, command_value, command_code, unknown, Packet, encode, decode, header_size,
}

-- The values of the enumeration: a named one, or an unnamed one of 16 bits.
abbrev pub IsCommand : CommandCode → Type 0
IsCommand (unknown w) = (w < 2 ^ 16) × (command_code w ≡ unknown w)
IsCommand _ = Unit {0}

-- The two casts are inverse to one another.
pub command_value-command_code : (w : ℕ) → command_value (command_code w) ≡ w
unfolding command_value command_code
command_value-command_code w = ground arith

pub command_code-IsCommand : (w : ℕ) → w < 2 ^ 16 → IsCommand (command_code w)
unfolding command_code
command_code-IsCommand w h = ground arith

pub command_code-command_value :
    (c : CommandCode) → IsCommand c → command_code (command_value c) ≡ c
unfolding command_code command_value
command_code-command_value (unknown w) h = h.1
command_code-command_value _ h = refl

pub command_value-lt : (c : CommandCode) → IsCommand c → command_value c < 2 ^ 16
unfolding command_value
command_value-lt (unknown w) h = h.0
command_value-lt _ h = omega arith

-- A packet whose fields fit their wire formats.
pub record IsPacket (p : Packet) : Type 0 where
  pub version_fits : p.version < 256
  pub command_fits : IsCommand p.command
  pub payload_fits : length p.payload < 2 ^ 32

pub length-encode : (p : Packet) → length (encode p) ≡ 7 + length p.payload
unfolding encode write_uint16 write_uint32
length-encode p = omega arith

-- The fields of an encoded packet stand at the offsets 0, 1, 3 and 7.
module _ (p : Packet) where
  version-At : At (encode p) 0 (p.version ∷ drop 1 (encode p))
  unfolding encode write_uint16 write_uint32
  version-At = (refl, omega arith)

  pub command-At : At (encode p) 1 (write_uint16 [] (command_value p.command) ++ drop 3 (encode p))
  unfolding encode write_uint16 write_uint32
  command-At = (refl, omega arith)

  pub length-At : At (encode p) 3 (write_uint32 [] (length p.payload % 2 ^ 32) ++ p.payload)
  unfolding encode write_uint16 write_uint32
  length-At = (refl, omega arith)

  pub payload-At : drop header_size (encode p) ≡ p.payload
  unfolding encode write_uint16 write_uint32
  payload-At = refl

-- The server reads back every packet that it writes, if the fields of the packet fit their formats.
pub decode-encode : (p : Packet) → IsPacket p → decode (encode p) ≡ ok p
unfolding decode
decode-encode p h = rw (guard-le header_size (length (encode p)) (omega (arith, length-encode p))) (
    rw (byte_at-At (encode p) 0 p.version _ (version-At p)) (
      rw
        (read_uint16-write_uint16 (encode p) 1 (command_value p.command) _
          (command_value-lt p.command h.command_fits) (command-At p))
        (rw
          (read_uint32-write_uint32 (encode p) 3 (length p.payload % 2 ^ 32) _ (omega arith)
            (length-At p))
          (rw
            ((==_iff (length (encode p)) (header_size + length p.payload % 2 ^ 32)).1
              (omega (arith, length-encode p, h.payload_fits)))
            (rw (command_code-command_value p.command h.command_fits, payload-At p))))))
