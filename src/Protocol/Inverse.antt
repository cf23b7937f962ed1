-- ===== src/Protocol/Inverse.antt =====
-- What the server's `decode` accepts: only encodings, and it never reads outside the buffer.
use qq_copy.Base.{ℕ, ◌+◌, ◌*◌, ◌≡◌, ◌^◌, arith, List, [], ◌∷◌, length}
use qq_copy.Outcome.{Ensures, Ensures-guard, Ensures-guard_eq}
use qq_copy.Wire.{IsBytes, write_uint16, write_uint32, byte_at, read_uint16, read_uint32}
use qq_copy.Protocol.{command_code, Packet, encode, decode, header_size}
use qq_copy.Protocol.Packets.{IsPacket, command_value-command_code, command_code-IsCommand}

module _ (v a b c d e f : ℕ) (rest : List ℕ)
    (byte_range : IsBytes (v ∷ a ∷ b ∷ c ∷ d ∷ e ∷ f ∷ rest)) where
  -- The packet that `decode` makes of a header and the bytes after it.
  abbrev parsed : Packet
  parsed = record { version = v; command = command_code (a * 256 + b); payload = rest }

  parsed-encode :
      7 + length rest ≡ 7 + (c * 2 ^ 24 + d * 2 ^ 16 + e * 2 ^ 8 + f)
      → encode parsed ≡ v ∷ a ∷ b ∷ c ∷ d ∷ e ∷ f ∷ rest
  unfolding encode write_uint16 write_uint32
  parsed-encode h = rw (command_value-command_code (a * 256 + b)) (ground arith)

  parsed-IsPacket :
      7 + length rest ≡ 7 + (c * 2 ^ 24 + d * 2 ^ 16 + e * 2 ^ 8 + f) → IsPacket parsed
  parsed-IsPacket h = record {
    version_fits = byte_range.0;
    command_fits = command_code-IsCommand (a * 256 + b) (omega arith);
    payload_fits = omega arith;
  }

-- On every buffer of bytes `decode` stays inside it, and a packet that it accepts is well formed and has
-- exactly this buffer for its encoding.
pub decode-encoding :
    (bytes : List ℕ) → IsBytes bytes → Ensures (decode bytes) (λ p. (encode p ≡ bytes) × IsPacket p)
unfolding decode byte_at read_uint16 read_uint32
decode-encoding [] h = tt
decode-encoding (v ∷ []) h = tt
decode-encoding (v ∷ a ∷ []) h = tt
decode-encoding (v ∷ a ∷ b ∷ []) h = tt
decode-encoding (v ∷ a ∷ b ∷ c ∷ []) h = tt
decode-encoding (v ∷ a ∷ b ∷ c ∷ d ∷ []) h = tt
decode-encoding (v ∷ a ∷ b ∷ c ∷ d ∷ e ∷ []) h = tt
decode-encoding (v ∷ a ∷ b ∷ c ∷ d ∷ e ∷ f ∷ rest) h =
    Ensures-guard _ header_size (length (v ∷ a ∷ b ∷ c ∷ d ∷ e ∷ f ∷ rest)) _ λ _.
      Ensures-guard_eq _ (length (v ∷ a ∷ b ∷ c ∷ d ∷ e ∷ f ∷ rest)) _ _ λ q. (
        parsed-encode v a b c d e f rest h (omega arith),
        parsed-IsPacket v a b c d e f rest h (omega arith),
      )
