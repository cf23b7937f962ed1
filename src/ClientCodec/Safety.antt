-- ===== src/ClientCodec/Safety.antt =====
-- The response decoders of the client that stay inside the payload, whatever bytes it holds.
use qq_copy.Base.{
  ℕ, zero, suc, ◌+◌, ◌*◌, ◌^◌, ◌≤◌, ◌<◌, ◌≡◌, inl, inr, List, length, arith, leb, leb→le,
  Bool-cases,
}
use qq_copy.Outcome.{
  Ensures, Ensures-bind, Ensures-guard, Ensures-guard_eq, Ensures-ne-fault, Ensures-weaken,
  Returns-weaken, Outcome-cases, Returns-Ensures, Returns, Returns-bind, Ensures-ok,
}
use qq_copy.Wire.{IsBytes, read_uint16, read_uint32, read_int32, read_string, read_counted}
use qq_copy.Wire.Bounds.{
  read_int32_bound, read_uint32_bound, read_uint16_bound, read_string_bound, read_counted_bound,
}
use qq_copy.ClientCodec.{
  read_friend, read_friends, read_sized, read_optional, decode_friend_list_response,
  decode_register_response, decode_reset_password_response, decode_version_check_response,
}

module _ (bytes : List ℕ) (byte_range : IsBytes bytes) where
  pub uint16_safe :
      (offset : ℕ)
      → offset + 2 ≤ length bytes
      → Ensures (read_uint16 bytes offset) (λ v. v < 2 ^ 16)
  uint16_safe offset h =
      Returns-Ensures _ (read_uint16 bytes offset) (read_uint16_bound bytes byte_range offset h)

  pub int32_safe :
      (offset : ℕ) → offset + 4 ≤ length bytes → Ensures (read_int32 bytes offset) (λ _. Unit {0})
  int32_safe offset h =
      Ensures-weaken _ _ (read_int32 bytes offset) (λ _ _. tt)
        (Returns-Ensures _ (read_int32 bytes offset) (read_int32_bound bytes byte_range offset h))

  -- A round of the friends' loop that goes on leaves at least six bytes behind it.
  read_friend_bound :
      (offset : ℕ)
      → Ensures
          (read_friend bytes offset)
          (λ r. (offset + 6 + length r.0.friend_name ≡ r.1) × (r.1 ≤ length bytes))
  unfolding read_friend
  read_friend_bound offset = Ensures-guard _ (offset + 4) (length bytes) _ λ g.
      Ensures-bind _ _ (read_int32 bytes offset) _ (int32_safe offset g) λ id _.
        Ensures-guard _ (offset + 4 + 2) (length bytes) _ λ g2.
          Ensures-bind _ _ (read_counted bytes (offset + 4)) _
            (read_counted_bound bytes byte_range (offset + 4) g2) λ r p. (omega arith, p.1)

  read_friends_bound :
      (rounds offset : ℕ)
      → Returns (read_friends rounds bytes offset) (λ friends.
        (length friends ≤ rounds)
        × (offset ≤ length bytes → offset + 6 * length friends ≤ length bytes))
  unfolding read_friends
  read_friends_bound zero offset = (omega arith, λ h. omega arith)
  read_friends_bound (suc rounds) offset = elim (Outcome-cases (read_friend bytes offset)) [
    | inl ((info, offset1), e) ↦
        let p =
          Ensures-ok _ (read_friend bytes offset) (info, offset1) e (read_friend_bound offset) in
        rw (e, read_friends)
          (Returns-bind _ _ (read_friends rounds bytes offset1) _
            (read_friends_bound rounds offset1)
            λ friends q. (omega (arith, q.0), λ h. omega (arith, q.1 p.1, p.0)))
    | inr (inl e) ↦ rw (e, read_friends) (omega arith, λ h. omega arith)
    | inr (inr e) ↦
        absurd (Ensures-ne-fault (read_friend bytes offset) _ (read_friend_bound offset) e)
  ]

  pub decode_friend_list_response_bound :
      Ensures (decode_friend_list_response bytes) (λ friends. 6 + 6 * length friends ≤ length bytes)
  unfolding decode_friend_list_response
  decode_friend_list_response_bound = Ensures-guard _ 6 (length bytes) _ λ size.
      Ensures-bind _ _ (read_uint16 bytes 0) _ (uint16_safe 0 (omega arith)) λ code _.
        Ensures-guard_eq _ code 0 _ λ _.
          Ensures-bind _ _ (read_uint32 bytes 2) _
            (Returns-Ensures _ (read_uint32 bytes 2)
              (read_uint32_bound bytes byte_range 2 (omega arith)))
            λ count _. Returns-Ensures _ (read_friends count bytes 6) (
              Returns-weaken _ _ (read_friends count bytes 6) (λ f q. q.1 size)
                (read_friends_bound count 6))

  read_sized_bound :
      (offset len : ℕ)
      → offset ≤ length bytes
      → Ensures (read_sized bytes offset len) (λ r. (length r.0 ≤ r.1) × (r.1 ≤ length bytes))
  unfolding read_sized
  read_sized_bound offset len h = elim (Bool-cases (leb (offset + len) (length bytes))) [
    | inl e ↦ rw e (
        Ensures-bind _ _ (read_string bytes offset len) _
          (Returns-Ensures _ (read_string bytes offset len) (
            read_string_bound bytes byte_range offset len (leb→le (offset + len) (length bytes) e)))
          λ str l. (omega arith, leb→le (offset + len) (length bytes) e))
    | inr e ↦ rw e (omega arith, h)
  ]

  read_optional_bound :
      (offset : ℕ)
      → offset ≤ length bytes
      → Ensures (read_optional bytes offset) (λ r. (length r.0 ≤ r.1) × (r.1 ≤ length bytes))
  unfolding read_optional
  read_optional_bound offset h = elim (Bool-cases (leb (offset + 2) (length bytes))) [
    | inl e ↦
        let g = leb→le (offset + 2) (length bytes) e in
        rw e (
          Ensures-bind _ _ (read_uint16 bytes offset) _ (uint16_safe offset g)
            λ len _. read_sized_bound (offset + 2) len g)
    | inr e ↦ rw e (omega arith, h)
  ]

  pub decode_version_check_response_bound :
      Ensures (decode_version_check_response bytes) (λ resp. length resp.update_url ≤ length bytes)
  unfolding decode_version_check_response
  decode_version_check_response_bound = Ensures-guard _ 6 (length bytes) _ λ size.
      Ensures-bind _ _ (read_uint16 bytes 0) _ (uint16_safe 0 (omega arith)) λ code _.
        Ensures-bind _ _ (read_int32 bytes 2) _ (int32_safe 2 (omega arith)) λ version _.
          Ensures-bind _ _ (read_optional bytes 6) _ (read_optional_bound 6 size) λ r p.
            Ensures-bind _ _ (read_optional bytes r.1) _ (read_optional_bound r.1 p.1)
              λ t q. omega arith

  pub decode_register_response_bound :
      Ensures (decode_register_response bytes) (λ resp. resp.error_code < 2 ^ 16)
  unfolding decode_register_response
  decode_register_response_bound = Ensures-guard _ 6 (length bytes) _ λ size.
      Ensures-bind _ _ (read_uint16 bytes 0) _ (uint16_safe 0 (omega arith))
        λ code p. Ensures-bind _ _ (read_int32 bytes 2) _ (int32_safe 2 (omega arith)) λ user _. p

  pub decode_reset_password_response_bound :
      Ensures (decode_reset_password_response bytes) (λ resp. resp.error_code < 2 ^ 16)
  unfolding decode_reset_password_response
  decode_reset_password_response_bound =
      Ensures-guard _ 2 (length bytes) _
        λ size. Ensures-bind _ _ (read_uint16 bytes 0) _ (uint16_safe 0 size) λ code p. p

-- Whatever bytes the server sends, these four decoders read nothing outside the payload: the
-- friends that are read, at least six bytes each, fit into it, however large the count field is,
-- the update text is no longer than the payload, and an error code has 16 bits.
pub response_decoders_safe :
    (bytes : List ℕ)
    → IsBytes bytes
    → Ensures (decode_friend_list_response bytes) (λ friends. 6 + 6 * length friends ≤ length bytes)
      × Ensures
          (decode_version_check_response bytes)
          (λ resp. length resp.update_url ≤ length bytes)
      × Ensures (decode_register_response bytes) (λ resp. resp.error_code < 2 ^ 16)
      × Ensures (decode_reset_password_response bytes) (λ resp. resp.error_code < 2 ^ 16)
response_decoders_safe bytes h = (
  decode_friend_list_response_bound bytes h,
  decode_version_check_response_bound bytes h,
  decode_register_response_bound bytes h,
  decode_reset_password_response_bound bytes h,
)
