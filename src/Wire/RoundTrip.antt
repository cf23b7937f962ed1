-- ===== src/Wire/RoundTrip.antt =====
-- What the writers put down is what the readers take up, whatever follows it in the buffer.
use native.Mathlib.Nat.{div-div-eq-div-mul}
use native.Mathlib.Numerals.{towards_suc}
use qq_copy.Base.{
  ℕ, zero, suc, ◌+◌, ◌*◌, ◌/◌, ◌%◌, ◌^◌, ◌≤◌, ◌<◌, ◌≡◌, refl, sym, ap, ◌∙◌, List, [], ◌∷◌, ◌++◌,
  length, take, drop, arith, length-append, drop-append, drop-drop, take-append, append_assoc,
  append-nil, le→leb,
}
use qq_copy.Base.Int.{ℤ, to_signed, to_unsigned, IsSigned, to_unsigned-lt}
use qq_copy.Base.Int.{to_signed-to_unsigned_32, to_signed-to_unsigned_64}
use qq_copy.Outcome.{Outcome, ok, ◌>>=◌}
use qq_copy.Wire.{
  write_uint16, write_uint32, write_int32, write_int64_loop, write_int64, write_string, byte_at,
  read_uint16, read_uint32, read_int32, read_int64_loop, read_int64, read_string, read_counted,
}

-- `rest` is what the buffer holds from the offset on.
abbrev pub At : List ℕ → ℕ → List ℕ → Type 0
At bytes offset rest = (drop offset bytes ≡ rest) × (offset + length rest ≡ length bytes)

pub At-zero : (bytes : List ℕ) → At bytes 0 bytes
At-zero bytes = (refl, omega arith)

pub At-skip :
    (bytes : List ℕ) (offset : ℕ) (xs rest : List ℕ)
    → At bytes offset (xs ++ rest)
    → At bytes (offset + length xs) rest
At-skip bytes offset xs rest (e, l) = (
  sym (drop-drop offset (length xs) bytes) ∙ ap (drop (length xs)) e ∙ drop-append xs rest,
  omega (arith, length-append xs rest),
)

pub At-le :
    (bytes : List ℕ) (offset : ℕ) (xs rest : List ℕ)
    → At bytes offset (xs ++ rest)
    → offset + length xs ≤ length bytes
At-le bytes offset xs rest (e, l) = omega (arith, length-append xs rest)

pub byte_at-At :
    (bytes : List ℕ) (offset x : ℕ) (rest : List ℕ)
    → At bytes offset (x ∷ rest)
    → byte_at bytes offset ≡ ok x
unfolding byte_at
byte_at-At [] zero x rest (e, l) = cc
byte_at-At [] (suc i) x rest (e, l) = cc
byte_at-At (b ∷ bs) zero x rest (e, l) = cc
byte_at-At (b ∷ bs) (suc i) x rest (e, l) = byte_at-At bs i x rest (e, omega arith)

read_uint16-bytes :
    (bytes : List ℕ) (offset hi lo : ℕ) (rest : List ℕ)
    → At bytes offset (hi ∷ lo ∷ rest)
    → read_uint16 bytes offset ≡ ok (hi * 256 + lo)
unfolding read_uint16
read_uint16-bytes bytes offset hi lo rest h =
    rw (byte_at-At bytes offset hi (lo ∷ rest) h)
      (rw (byte_at-At bytes (offset + 1) lo rest (At-skip bytes offset (hi ∷ []) (lo ∷ rest) h)))

pub read_uint16-write_uint16 :
    (bytes : List ℕ) (offset v : ℕ) (rest : List ℕ)
    → v < 2 ^ 16
    → At bytes offset (write_uint16 [] v ++ rest)
    → read_uint16 bytes offset ≡ ok v
unfolding write_uint16
read_uint16-write_uint16 bytes offset v rest hv h =
    read_uint16-bytes bytes offset _ _ rest h ∙ ap ok (omega arith)

read_uint32-bytes :
    (bytes : List ℕ) (offset a b c d : ℕ) (rest : List ℕ)
    → At bytes offset (a ∷ b ∷ c ∷ d ∷ rest)
    → read_uint32 bytes offset ≡ ok (a * 2 ^ 24 + b * 2 ^ 16 + c * 2 ^ 8 + d)
unfolding read_uint32
read_uint32-bytes bytes offset a b c d rest h =
    rw (byte_at-At bytes offset a (b ∷ c ∷ d ∷ rest) h) (
      rw (byte_at-At bytes (offset + 1) b (c ∷ d ∷ rest) (At-skip bytes offset (a ∷ []) _ h)) (
        rw (byte_at-At bytes (offset + 2) c (d ∷ rest) (At-skip bytes offset (a ∷ b ∷ []) _ h))
          (rw (byte_at-At bytes (offset + 3) d rest (At-skip bytes offset (a ∷ b ∷ c ∷ []) _ h)))))

pub read_uint32-write_uint32 :
    (bytes : List ℕ) (offset v : ℕ) (rest : List ℕ)
    → v < 2 ^ 32
    → At bytes offset (write_uint32 [] v ++ rest)
    → read_uint32 bytes offset ≡ ok v
unfolding write_uint32
read_uint32-write_uint32 bytes offset v rest hv h =
    read_uint32-bytes bytes offset _ _ _ _ rest h ∙ ap ok (omega arith)

pub read_int32-write_int32 :
    (bytes : List ℕ) (offset : ℕ) (v : ℤ) (rest : List ℕ)
    → IsSigned (2 ^ 31) v
    → At bytes offset (write_int32 [] v ++ rest)
    → read_int32 bytes offset ≡ ok v
unfolding read_int32 write_int32
read_int32-write_int32 bytes offset v rest hv h =
    rw (read_uint32-write_uint32 bytes offset _ rest (to_unsigned-lt (2 ^ 32) v (omega arith)) h)
      (ap ok (to_signed-to_unsigned_32 v hv))

-- The bytes of a pattern from bit 8 * k down, which both loops of int64 walk through.
big_endian : ℕ → ℕ → List ℕ
big_endian zero pattern = []
big_endian (suc i) pattern = (pattern / 2 ^ (8 * i) % 256) ∷ big_endian i pattern

write_int64_loop-big_endian :
    (k : ℕ) (buffer : List ℕ) (pattern : ℕ)
    → write_int64_loop k buffer pattern ≡ buffer ++ big_endian k pattern
unfolding write_int64_loop big_endian
write_int64_loop-big_endian zero buffer pattern = sym (append-nil buffer)
write_int64_loop-big_endian (suc i) buffer pattern =
    write_int64_loop-big_endian i (buffer ++ _ ∷ []) pattern ∙ append_assoc buffer _ _

power_step : (s : ℕ) → 2 ^ (s + 8) ≡ 2 ^ s * 256
power_step s = simp towards_suc (omega arith)

next_byte : (p k : ℕ) → p / 2 ^ (8 * suc k) ≡ p / 2 ^ (8 * k) / 256
next_byte p k =
    ap (λ (m : ℕ). p / 2 ^ m) (let e : 8 * suc k ≡ 8 * k + 8 = omega arith in e)
    ∙ ap (λ (m : ℕ). p / m) (power_step (8 * k))
    ∙ sym (div-div-eq-div-mul p (2 ^ (8 * k)) 256)

read_int64_loop-big_endian :
    (k : ℕ) (bytes : List ℕ) (offset pattern value : ℕ) (rest : List ℕ)
    → pattern < 2 ^ 64
    → value ≡ pattern / 2 ^ (8 * k)
    → At bytes offset (big_endian k pattern ++ rest)
    → read_int64_loop k bytes offset value ≡ ok pattern
unfolding read_int64_loop big_endian
read_int64_loop-big_endian zero bytes offset pattern value rest hp e h = ap ok (omega arith)
read_int64_loop-big_endian (suc k) bytes offset pattern value rest hp e h =
    rw (byte_at-At bytes offset _ (big_endian k pattern ++ rest) h) (
      read_int64_loop-big_endian k bytes (offset + 1) pattern _ rest hp
        (omega (arith, next_byte pattern k)) (At-skip bytes offset (_ ∷ []) _ h))

pub read_int64-write_int64 :
    (bytes : List ℕ) (offset : ℕ) (v : ℤ) (rest : List ℕ)
    → IsSigned (2 ^ 63) v
    → At bytes offset (write_int64 [] v ++ rest)
    → read_int64 bytes offset ≡ ok v
unfolding read_int64 write_int64 big_endian
read_int64-write_int64 bytes offset v rest hv h =
    let p = to_unsigned (2 ^ 64) v in
    let hp : p < 2 ^ 64 = to_unsigned-lt (2 ^ 64) v (omega arith) in
    ap (λ (m : Outcome ℕ). m >>= λ w. ok (to_signed (2 ^ 63) w))
      (read_int64_loop-big_endian 8 bytes offset p 0 rest hp (omega arith) h)
    ∙ ap ok (to_signed-to_unsigned_64 v hv)

pub read_string-append :
    (bytes : List ℕ) (offset : ℕ) (str rest : List ℕ)
    → At bytes offset (str ++ rest)
    → read_string bytes offset (length str) ≡ ok str
unfolding read_string
read_string-append bytes offset str rest h =
    rw (le→leb (offset + length str) (length bytes) (At-le bytes offset str rest h))
      (ap ok (ap (take (length str)) h.0 ∙ take-append str rest))

-- Behind a field of fixed size.
module _ (bytes : List ℕ) (offset : ℕ) (rest : List ℕ) where
  pub At-uint16 : (v : ℕ) → At bytes offset (write_uint16 [] v ++ rest) → At bytes (offset + 2) rest
  unfolding write_uint16
  At-uint16 v h = At-skip bytes offset (_ ∷ _ ∷ []) rest h

  pub At-uint32 : (v : ℕ) → At bytes offset (write_uint32 [] v ++ rest) → At bytes (offset + 4) rest
  unfolding write_uint32
  At-uint32 v h = At-skip bytes offset (_ ∷ _ ∷ _ ∷ _ ∷ []) rest h

  pub At-int32 : (v : ℤ) → At bytes offset (write_int32 [] v ++ rest) → At bytes (offset + 4) rest
  unfolding write_int32
  At-int32 v h = At-uint32 _ h

  -- The length of a counted string is read back, and the bytes stand behind it.
  pub read_uint16-write_string :
      (str : List ℕ)
      → length str < 2 ^ 16
      → At bytes offset (write_string [] str ++ rest)
      → (read_uint16 bytes offset ≡ ok (length str)) × At bytes (offset + 2) (str ++ rest)
  unfolding write_string
  read_uint16-write_string str hs h = (
    read_uint16-bytes bytes offset _ _ (str ++ rest) h ∙ ap ok (omega arith),
    At-skip bytes offset (_ ∷ _ ∷ []) (str ++ rest) h,
  )

-- A counted string of fewer than 2 ^ 16 bytes is read back, and the offset goes behind it.
pub read_counted-write_string :
    (bytes : List ℕ) (offset : ℕ) (str rest : List ℕ)
    → length str < 2 ^ 16
    → At bytes offset (write_string [] str ++ rest)
    → (read_counted bytes offset ≡ ok (str, offset + 2 + length str))
      × At bytes (offset + 2 + length str) rest
unfolding read_counted
read_counted-write_string bytes offset str rest hs h =
    let (len, after) = read_uint16-write_string bytes offset rest str hs h in
    (
      rw len (
          rw
            (le→leb (offset + 2 + length str) (length bytes)
              (At-le bytes (offset + 2) str rest after))
            (rw (read_string-append bytes (offset + 2) str rest after))),
      At-skip bytes (offset + 2) str rest after,
    )
