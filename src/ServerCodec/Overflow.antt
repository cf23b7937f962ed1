-- ===== src/ServerCodec/Overflow.antt =====
-- The length check of `decode_message_request` wraps: what the server does on a huge length.
use qq_copy.Base.{
  ℕ, ◌+◌, ◌^◌, ◌%◌, ◌≤◌, ◌<◌, ◌≡◌, ◌↔◌, inl, inr, List, length, arith, leb, leb→le, Bool-cases,
}
use qq_copy.Outcome.{
  ok, fault, guard-le, Ensures, Ensures-bind, Ensures-guard, Ensures-ne-fault, Returns-Ensures,
  Returns-ok, Ensures-ok,
}
use qq_copy.Wire.{IsBytes, read_uint32, read_int32, read_string}
use qq_copy.Wire.Bounds.{read_int32_bound, read_uint32_bound, read_string_bound}
use qq_copy.ServerCodec.{decode_message_request}

module _ (bytes : List ℕ) (byte_range : IsBytes bytes) (size : 8 ≤ length bytes)
    (small : length bytes < 2 ^ 32) (content_len : ℕ)
    (field : read_uint32 bytes 4 ≡ ok content_len) where
  content_len-lt : content_len < 2 ^ 32
  content_len-lt =
      Ensures-ok _ (read_uint32 bytes 4) content_len field (
        Returns-Ensures _ (read_uint32 bytes 4)
          (read_uint32_bound bytes byte_range 4 (omega arith)))

  read_string_fault : length bytes < 8 + content_len → read_string bytes 8 content_len ≡ fault
  unfolding read_string
  read_string_fault h = ground arith

  -- A length within 8 of 2 ^ 32 passes the check, and the copy of the content leaves the buffer.
  pub huge_length_fault : 2 ^ 32 ≤ content_len + 8 → decode_message_request bytes ≡ fault
  unfolding decode_message_request
  huge_length_fault h =
      let (to_id, e, _) =
        Returns-ok _ (read_int32 bytes 0) (read_int32_bound bytes byte_range 0 (omega arith)) in
      let below : content_len < 2 ^ 32 = content_len-lt in
      rw (guard-le 8 (length bytes) size) (
        rw e (
          rw field (
            rw (guard-le ((4 + 4 + content_len) % 2 ^ 32) (length bytes) (omega arith))
              (rw (read_string_fault (omega arith))))))

  -- Any other length is checked as meant: the content has this length and lies in the payload.
  pub plain_length :
      content_len + 8 < 2 ^ 32
      → Ensures
          (decode_message_request bytes)
          (λ req. (length req.content ≡ content_len) × (8 + length req.content ≤ length bytes))
  unfolding decode_message_request
  plain_length h = Ensures-guard _ 8 (length bytes) _ λ _.
      Ensures-bind _ _ (read_int32 bytes 0) _
        (Returns-Ensures _ (read_int32 bytes 0) (read_int32_bound bytes byte_range 0 (omega arith)))
        λ to_id _. rw field (
          Ensures-guard _ ((4 + 4 + content_len) % 2 ^ 32) (length bytes) _ λ fits.
            Ensures-bind _ _ (read_string bytes 8 content_len) _
              (Returns-Ensures _ (read_string bytes 8 content_len)
                (read_string_bound bytes byte_range 8 content_len (omega arith)))
              λ content e. (e, omega arith))

  -- On a payload of bytes with at least 8 and fewer than 2 ^ 32 of them, the decoder of a message
  -- reads outside the payload exactly when the content's length field is 2 ^ 32 - 8 or more: there
  -- the sum with the header of 8 bytes wraps in 32 bits and passes the length check.
  pub decode_message_request_fault_iff :
      (decode_message_request bytes ≡ fault) ↔ (2 ^ 32 ≤ content_len + 8)
  decode_message_request_fault_iff = (
    (λ e. elim (Bool-cases (leb (2 ^ 32) (content_len + 8))) [
      | inl wraps ↦ leb→le (2 ^ 32) (content_len + 8) wraps
      | inr plain ↦
          absurd (Ensures-ne-fault (decode_message_request bytes) _ (plain_length (ground arith)) e)
    ]),
    huge_length_fault,
  )
