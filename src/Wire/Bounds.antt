-- ===== src/Wire/Bounds.antt =====
-- Reads inside the buffer do not fault, and what they return is in range.
use qq_copy.Base.{
  ℕ, zero, suc, ◌+◌, ◌*◌, ◌%◌, ◌^◌, ◌≤◌, ◌<◌, ◌≡◌, refl, List, [], ◌∷◌, length, arith,
}
use qq_copy.Base.{drop, length-drop, length-take, le→leb}
use qq_copy.Base.Int.{IsSigned, to_signed-IsSigned}
use qq_copy.Outcome.{
  fault, Ensures, Ensures-bind, Ensures-guard, Returns, Returns-bind, Returns-Ensures, Returns-ok,
}
use qq_copy.Wire.{
  IsBytes, byte_at, read_uint16, read_uint32, read_int32, read_int64_loop, read_int64, read_string,
  read_counted,
}

pub byte_at_bound :
    (bytes : List ℕ) (i : ℕ)
    → IsBytes bytes
    → i < length bytes
    → Returns (byte_at bytes i) (λ x. x < 256)
unfolding byte_at
byte_at_bound [] i hb h = absurd (omega arith)
byte_at_bound (x ∷ xs) zero hb h = hb.0
byte_at_bound (x ∷ xs) (suc i) hb h = byte_at_bound xs i hb.1 (omega arith)

module _ (bytes : List ℕ) (byte_range : IsBytes bytes) where
  at : (i : ℕ) → i < length bytes → Returns (byte_at bytes i) (λ x. x < 256)
  at i h = byte_at_bound bytes i byte_range h

  pub read_uint16_bound :
      (offset : ℕ)
      → offset + 2 ≤ length bytes
      → Returns (read_uint16 bytes offset) (λ v. v < 2 ^ 16)
  unfolding read_uint16
  read_uint16_bound offset h =
      Returns-bind _ _ (byte_at bytes offset) _ (at offset (omega arith)) λ hi p.
        Returns-bind _ _ (byte_at bytes (offset + 1)) _ (at (offset + 1) (omega arith))
          λ lo q. omega arith

  pub read_uint32_bound :
      (offset : ℕ)
      → offset + 4 ≤ length bytes
      → Returns (read_uint32 bytes offset) (λ v. v < 2 ^ 32)
  unfolding read_uint32
  read_uint32_bound offset h = ground (
    arith,
    at offset (omega arith),
    at (offset + 1) (omega arith),
    at (offset + 2) (omega arith),
    at (offset + 3) (omega arith),
  )

  pub read_int32_bound :
      (offset : ℕ)
      → offset + 4 ≤ length bytes
      → Returns (read_int32 bytes offset) (IsSigned (2 ^ 31))
  unfolding read_int32
  read_int32_bound offset h =
      Returns-bind _ _ (read_uint32 bytes offset) _ (read_uint32_bound offset h)
        λ w p. to_signed-IsSigned (2 ^ 31) w (omega arith)

  pub read_string_bound :
      (offset len : ℕ)
      → offset + len ≤ length bytes
      → Returns (read_string bytes offset len) (λ s. length s ≡ len)
  unfolding read_string
  read_string_bound offset len h =
      rw (le→leb (offset + len) (length bytes) h)
        (length-take len (drop offset bytes) (omega (arith, length-drop offset bytes)))

  read_int64_loop_bound :
      (rounds offset value : ℕ)
      → offset + rounds ≤ length bytes
      → value < 2 ^ 64
      → Returns (read_int64_loop rounds bytes offset value) (λ v. v < 2 ^ 64)
  unfolding read_int64_loop
  read_int64_loop_bound zero offset value h hv = hv
  read_int64_loop_bound (suc rounds) offset value h hv =
      Returns-bind _ _ (byte_at bytes offset) _ (at offset (omega arith)) λ b p.
        read_int64_loop_bound rounds (offset + 1) (value * 256 % 2 ^ 64 + b) (omega arith)
          (omega arith)

  pub read_int64_bound :
      (offset : ℕ)
      → offset + 8 ≤ length bytes
      → Returns (read_int64 bytes offset) (IsSigned (2 ^ 63))
  unfolding read_int64
  read_int64_bound offset h =
      Returns-bind _ _ (read_int64_loop 8 bytes offset 0) _
        (read_int64_loop_bound 8 offset 0 h (omega arith))
        λ w p. to_signed-IsSigned (2 ^ 63) w (omega arith)

  pub read_counted_bound :
      (offset : ℕ)
      → offset + 2 ≤ length bytes
      → Ensures
          (read_counted bytes offset)
          (λ r. (r.1 ≡ offset + 2 + length r.0) × (r.1 ≤ length bytes))
  unfolding read_counted
  read_counted_bound offset h =
      Ensures-bind _ _ (read_uint16 bytes offset) _
        (Returns-Ensures _ (read_uint16 bytes offset) (read_uint16_bound offset h))
        λ len p. Ensures-guard _ (offset + 2 + len) (length bytes) _ λ q.
          Ensures-bind _ _ (read_string bytes (offset + 2) len) _
            (Returns-Ensures _ (read_string bytes (offset + 2) len)
              (read_string_bound (offset + 2) len q))
            λ s e. (omega arith, q)

pub byte_at_outside : (bytes : List ℕ) (i : ℕ) → length bytes ≤ i → byte_at bytes i ≡ fault
unfolding byte_at
byte_at_outside [] i h = refl
byte_at_outside (x ∷ xs) zero h = absurd (omega arith)
byte_at_outside (x ∷ xs) (suc i) h = byte_at_outside xs i (omega arith)

-- One byte is not enough for a uint16_t.
pub read_uint16_cut :
    (bytes : List ℕ) (offset : ℕ)
    → IsBytes bytes
    → length bytes ≡ offset + 1
    → read_uint16 bytes offset ≡ fault
unfolding read_uint16
read_uint16_cut bytes offset byte_range h =
    let (hi, e, _) =
      Returns-ok _ (byte_at bytes offset) (byte_at_bound bytes offset byte_range (omega arith)) in
    rw (e, byte_at_outside bytes (offset + 1) (omega arith))
