-- ===== src/Wire.antt =====
-- The byte primitives of server/src/protocol_codec.cpp and
-- android/app/src/main/cpp/protocol_codec.cpp, which are the same in both files: big-endian
-- integers and counted strings, written at the end of a buffer and read at an offset.
-- A byte is a number below 256; a string is the list of its bytes. Reading outside the buffer,
-- which is undefined behaviour in C++, is the outcome `fault`.
pub mod Bounds
pub mod RoundTrip
use qq_copy.Base.{ℕ, zero, suc, ◌+◌, ◌*◌, ◌/◌, ◌%◌, ◌^◌, List, [], ◌∷◌, ◌++◌, length, take, drop}
use qq_copy.Base.{leb, if◌then◌else◌, All, ◌<◌}
use qq_copy.Base.Int.{ℤ, to_unsigned, to_signed}
use qq_copy.Outcome.{Outcome, ok, fault, ◌>>=◌, ◌>>◌, guard}

-- Every element is a byte.
abbrev pub IsBytes : List ℕ → Type 0
IsBytes = All (λ x. x < 256)

unfoldable pub write_uint16 : List ℕ → ℕ → List ℕ
write_uint16 buffer value = buffer ++ (value / 2 ^ 8 % 256) ∷ (value % 256) ∷ []

unfoldable pub write_uint32 : List ℕ → ℕ → List ℕ
write_uint32 buffer value =
    buffer
    ++ (value / 2 ^ 24 % 256) ∷ (value / 2 ^ 16 % 256) ∷ (value / 2 ^ 8 % 256) ∷ (value % 256) ∷ []

unfoldable pub write_int32 : List ℕ → ℤ → List ℕ
unfolding write_uint32
write_int32 buffer value = write_uint32 buffer (to_unsigned (2 ^ 32) value)

-- `for (int i = 7; i >= 0; --i)`; the argument counts the rounds left, i + 1. The arithmetic shift
-- and the mask take the byte of the two's complement pattern.
unfoldable pub write_int64_loop : ℕ → List ℕ → ℕ → List ℕ
write_int64_loop zero buffer pattern = buffer
write_int64_loop (suc i) buffer pattern =
    write_int64_loop i (buffer ++ (pattern / 2 ^ (8 * i) % 256) ∷ []) pattern

unfoldable pub write_int64 : List ℕ → ℤ → List ℕ
unfolding write_int64_loop
write_int64 buffer value = write_int64_loop 8 buffer (to_unsigned (2 ^ 64) value)

-- The length is cast to 16 bits, and all the bytes are written.
unfoldable pub write_string : List ℕ → List ℕ → List ℕ
unfolding write_uint16
write_string buffer str = let len = length str % 2 ^ 16 in write_uint16 buffer len ++ str

unfoldable pub byte_at : List ℕ → ℕ → Outcome ℕ
byte_at [] i = fault
byte_at (x ∷ xs) zero = ok x
byte_at (x ∷ xs) (suc i) = byte_at xs i

-- `a << 8 | b` is `a * 256 + b`, since b is a byte.
unfoldable pub read_uint16 : List ℕ → ℕ → Outcome ℕ
unfolding byte_at
read_uint16 bytes offset = do
  hi ← byte_at bytes offset
  lo ← byte_at bytes (offset + 1)
  ok (hi * 256 + lo)

unfoldable pub read_uint32 : List ℕ → ℕ → Outcome ℕ
unfolding byte_at
read_uint32 bytes offset = do
  a ← byte_at bytes offset
  b ← byte_at bytes (offset + 1)
  c ← byte_at bytes (offset + 2)
  d ← byte_at bytes (offset + 3)
  ok (a * 2 ^ 24 + b * 2 ^ 16 + c * 2 ^ 8 + d)

unfoldable pub read_int32 : List ℕ → ℕ → Outcome ℤ
read_int32 bytes offset = do word ← read_uint32 bytes offset; ok (to_signed (2 ^ 31) word)

-- The rounds left of `for (int i = 0; i < 8; ++i)`, the offset of data[i], and the pattern of
-- `value`, which a shift by 8 cuts to 64 bits.
unfoldable pub read_int64_loop : ℕ → List ℕ → ℕ → ℕ → Outcome ℕ
unfolding byte_at
read_int64_loop zero bytes offset value = ok value
read_int64_loop (suc rounds) bytes offset value = do
  b ← byte_at bytes offset
  read_int64_loop rounds bytes (offset + 1) (value * 256 % 2 ^ 64 + b)

unfoldable pub read_int64 : List ℕ → ℕ → Outcome ℤ
read_int64 bytes offset = do
  pattern ← read_int64_loop 8 bytes offset 0
  ok (to_signed (2 ^ 63) pattern)

unfoldable pub read_string : List ℕ → ℕ → ℕ → Outcome (List ℕ)
read_string bytes offset len =
    if leb (offset + len) (length bytes) then ok (take len (drop offset bytes)) else fault

-- The block that the decoders repeat: a length, the check of it, the bytes. It returns the string
-- and the offset behind it.
unfoldable pub read_counted : List ℕ → ℕ → Outcome (List ℕ × ℕ)
read_counted bytes offset = do
  len ← read_uint16 bytes offset
  guard (leb (offset + 2 + len) (length bytes))
  str ← read_string bytes (offset + 2) len
  ok (str, offset + 2 + len)
