-- ===== src/RoundTrip/Messages.antt =====
-- Messages and the requests of one field, from the client to the server.
use qq_copy.Base.{
  ℕ, ◌+◌, ◌<◌, ◌≡◌, ◌^◌, ◌%◌, refl, sym, ap, ◌∙◌, List, [], ◌++◌, length, arith, append_assoc,
  append-nil,
}
use qq_copy.Base.Int.{ℤ, IsSigned}
use qq_copy.Outcome.{ok, guard-le}
use qq_copy.Wire.{write_uint32, write_int32, write_string, read_int32}
use qq_copy.Wire.RoundTrip.{
  At, At-int32, At-uint32, read_int32-write_int32, read_uint32-write_uint32, read_string-append,
}
use qq_copy.Protocol.{message_req, add_friend_req, security_question_req, version_check_req}
use qq_copy.ServerCodec.{
  decode_message_request, decode_security_question_request, decode_version_check_request,
}
use qq_copy.ClientCodec.{
  encode_message_request, encode_security_question_request, encode_version_check_request,
  encode_add_friend_request,
}
use qq_copy.RoundTrip.{Delivers, delivers, write_uint32-append, length-write_string, At-start}
use qq_copy.RoundTrip.Requests.{last_field}

question_fields :
    (u : List ℕ)
    → length u < 2 ^ 16
    → decode_security_question_request (write_string [] u) ≡ ok (record { username = u })
unfolding decode_security_question_request
question_fields u hu =
    let (e1, g1, _) = last_field (write_string [] u) 0 u hu (At-start _ _ refl) in rw g1 (rw e1)

length-write_int32 : (v : ℤ) → length (write_int32 [] v) ≡ 4
unfolding write_int32 write_uint32
length-write_int32 v = refl

int32_field : (v : ℤ) → IsSigned (2 ^ 31) v → read_int32 (write_int32 [] v) 0 ≡ ok v
int32_field v h =
    read_int32-write_int32 (write_int32 [] v) 0 v [] h
      (At-start _ _ (sym (append-nil (write_int32 [] v))))

version_fields :
    (v : ℤ)
    → IsSigned (2 ^ 31) v
    → decode_version_check_request (write_int32 [] v) ≡ ok (record { client_version = v })
unfolding decode_version_check_request
version_fields v h =
    rw (guard-le 4 (length (write_int32 [] v)) (omega (arith, length-write_int32 v)))
      (rw (int32_field v h))

-- The requests of one field are delivered under their commands: a security question
-- for a name of fewer than 2 ^ 16 bytes, and, for every int, a version check and the friend to add.
pub short_requests_delivered :
    (u : List ℕ) (v : ℤ)
    → length u < 2 ^ 16
    → IsSigned (2 ^ 31) v
    → Delivers
        (encode_security_question_request u)
        security_question_req
        decode_security_question_request
        (record { username = u })
      × Delivers
          (encode_version_check_request v)
          version_check_req
          decode_version_check_request
          (record { client_version = v })
      × Delivers (encode_add_friend_request v) add_friend_req (λ payload. read_int32 payload 0) v
unfolding encode_security_question_request encode_version_check_request encode_add_friend_request
short_requests_delivered u v hu hv =
    let size : length (write_int32 [] v) < 2 ^ 32 = omega (arith, length-write_int32 v) in
    (
      delivers security_question_req _ decode_security_question_request _ tt
          (omega (arith, length-write_string u)) (question_fields u hu),
      delivers version_check_req _ decode_version_check_request _ tt size (version_fields v hv),
      delivers add_friend_req _ (λ payload. read_int32 payload 0) _ tt size (int32_field v hv),
    )

module _ (to_id : ℤ) (content : List ℕ) (id_fits : IsSigned (2 ^ 31) to_id) where
  pub message_fields :
      (bytes : List ℕ)
      → 8 + length content < 2 ^ 32
      → bytes ≡ write_int32 [] to_id ++ (write_uint32 [] (length content % 2 ^ 32) ++ content)
      → decode_message_request bytes ≡ ok (record { to_id = to_id; content = content })
  unfolding decode_message_request
  message_fields bytes small e =
      let start = At-start bytes _ e in
      let a1 = At-int32 bytes 0 _ to_id start in
      let a2 = At-uint32 bytes 4 content (length content % 2 ^ 32) a1 in
      let a3 : At bytes 8 (content ++ []) = rw append-nil a2 in
      rw (guard-le 8 (length bytes) (omega (arith, a2))) (
        rw (read_int32-write_int32 bytes 0 to_id _ id_fits start) (
          rw (read_uint32-write_uint32 bytes 4 (length content % 2 ^ 32) _ (omega arith) a1) (
            rw (modulo) (
              rw (guard-le ((4 + 4 + length content) % 2 ^ 32) (length bytes) (omega (arith, a2)))
                (rw (read_string-append bytes 8 content [] a3))))))
    where
      modulo : length content % 2 ^ 32 ≡ length content
      modulo = omega arith

  -- A message to any int as user is delivered under its command, if its
  -- content has fewer than 2 ^ 32 - 8 bytes.
  pub message_request_delivered :
      8 + length content < 2 ^ 32
      → Delivers
          (encode_message_request to_id content)
          message_req
          decode_message_request
          (record { to_id = to_id; content = content })
  unfolding encode_message_request
  message_request_delivered small =
      let e =
        ap (λ b. b ++ content)
          (write_uint32-append (write_int32 [] to_id) (length content % 2 ^ 32))
        ∙ append_assoc (write_int32 [] to_id) (write_uint32 [] (length content % 2 ^ 32)) content in
      delivers message_req _ decode_message_request _ tt
        (omega (arith, At-start _ _ e, length-message)) (message_fields _ small e)
    where
      length-message :
          length (write_uint32 (write_int32 [] to_id) (length content % 2 ^ 32) ++ content)
          ≡ 8 + length content
      length-message = unfold write_uint32 write_int32 in omega arith
