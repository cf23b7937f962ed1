-- ===== src/ClientCodec/Trailing.antt =====
-- The two response decoders of the client that test for one byte and read two.
use qq_copy.Base.{
  ℕ, ◌+◌, ◌≡◌, ◌≢◌, ◌↔◌, inl, inr, List, length, arith, leb, ltb, leb→le, ltb→lt, lt→ltb, ◌==◌,
  ==_iff, Bool-cases,
}
use qq_copy.Outcome.{
  Outcome, fault, guard-le, Ensures, Ensures-bind, Ensures-guard, Ensures-ne-fault, Ensures-weaken,
  Returns-Ensures, Returns-ok,
}
use qq_copy.Wire.{IsBytes, read_uint16, read_int32, read_string}
use qq_copy.Wire.Bounds.{read_int32_bound, read_uint16_bound, read_uint16_cut, read_string_bound}
use qq_copy.ClientCodec.{read_trailing, decode_login_response, decode_security_question_response}
use qq_copy.ClientCodec.Safety.{uint16_safe, int32_safe}

module _ (bytes : List ℕ) (byte_range : IsBytes bytes) where
  -- The trailing string of two responses: it faults where exactly one byte is left.
  read_trailing_cut : (offset : ℕ) → length bytes ≡ offset + 1 → read_trailing bytes offset ≡ fault
  unfolding read_trailing
  read_trailing_cut offset h =
      rw (lt→ltb offset (length bytes) (omega arith))
        (rw (read_uint16_cut bytes offset byte_range h))

  read_trailing_bound :
      (offset : ℕ)
      → length bytes ≢ offset + 1
      → Ensures (read_trailing bytes offset) (λ str. Unit {0})
  unfolding read_trailing
  read_trailing_bound offset h = elim (Bool-cases (ltb offset (length bytes))) [
    | inl e ↦
        let g = ltb→lt offset (length bytes) e in
        rw e (
          Ensures-bind _ _ (read_uint16 bytes offset) _
            (uint16_safe bytes byte_range offset (omega arith))
            λ len _. elim (Bool-cases (leb (offset + 2 + len) (length bytes))) [
              | inl f ↦ rw f (
                  Ensures-weaken _ _ (read_string bytes (offset + 2) len) (λ _ _. tt)
                    (Returns-Ensures _ (read_string bytes (offset + 2) len) (
                      read_string_bound bytes byte_range (offset + 2) len
                        (leb→le (offset + 2 + len) (length bytes) f))))
              | inr f ↦ rw f tt
            ])
    | inr e ↦ rw e tt
  ]

  login_bound : length bytes ≢ 7 → Ensures (decode_login_response bytes) (λ _. Unit {0})
  unfolding decode_login_response
  login_bound h = Ensures-guard _ 6 (length bytes) _ λ size.
      Ensures-bind _ _ (read_uint16 bytes 0) _ (uint16_safe bytes byte_range 0 (omega arith))
        λ code _.
          Ensures-bind _ _ (read_int32 bytes 2) _ (int32_safe bytes byte_range 2 (omega arith))
            λ user _.
              Ensures-bind _ _ (read_trailing bytes 6) _ (read_trailing_bound 6 h) λ name _. tt

  login_cut : length bytes ≡ 7 → decode_login_response bytes ≡ fault
  unfolding decode_login_response
  login_cut h =
      let (code, e, _) =
        Returns-ok _ (read_uint16 bytes 0) (read_uint16_bound bytes byte_range 0 (omega arith)) in
      let (user, f, _) =
        Returns-ok _ (read_int32 bytes 2) (read_int32_bound bytes byte_range 2 (omega arith)) in
      rw (guard-le 6 (length bytes) (omega arith)) (rw e (rw f (rw (read_trailing_cut 6 h))))

  question_bound :
      length bytes ≢ 3 → Ensures (decode_security_question_response bytes) (λ _. Unit {0})
  unfolding decode_security_question_response
  question_bound h = Ensures-guard _ 2 (length bytes) _ λ size.
      Ensures-bind _ _ (read_uint16 bytes 0) _ (uint16_safe bytes byte_range 0 size) λ code _.
        Ensures-bind _ _ (read_trailing bytes 2) _ (read_trailing_bound 2 h) λ question _. tt

  question_cut : length bytes ≡ 3 → decode_security_question_response bytes ≡ fault
  unfolding decode_security_question_response
  question_cut h =
      let (code, e, _) =
        Returns-ok _ (read_uint16 bytes 0) (read_uint16_bound bytes byte_range 0 (omega arith)) in
      rw (guard-le 2 (length bytes) (omega arith)) (rw e (rw (read_trailing_cut 2 h)))

-- A fault at one size only, from the two lemmas about a decoder.
fault_iff {ℓ} :
    {A : Type ℓ} (m : Outcome A) (n k : ℕ)
    → (n ≢ k → Ensures m (λ _. Unit {0}))
    → (n ≡ k → m ≡ fault)
    → (m ≡ fault) ↔ (n ≡ k)
fault_iff m n k safe cut = (
  (λ e. elim (Bool-cases (n == k)) [
    | inl same ↦ (==_iff n k).0 same
    | inr other ↦ absurd (Ensures-ne-fault m _ (safe (ground arith)) e)
  ]),
  cut,
)

-- On payloads of bytes the client reads outside the payload of a login response exactly when it
-- has seven bytes, and of a security question response exactly when it has three: the test
-- `offset < data.size()` lets it read a two-byte length where one byte is left.
pub trailing_length_fault_iff :
    (bytes : List ℕ)
    → IsBytes bytes
    → ((decode_login_response bytes ≡ fault) ↔ (length bytes ≡ 7))
      × ((decode_security_question_response bytes ≡ fault) ↔ (length bytes ≡ 3))
trailing_length_fault_iff bytes h = (
  fault_iff _ (length bytes) 7 (login_bound bytes h) (login_cut bytes h),
  fault_iff _ (length bytes) 3 (question_bound bytes h) (question_cut bytes h),
)
