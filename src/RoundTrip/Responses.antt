-- ===== src/RoundTrip/Responses.antt =====
-- The client reads the responses and notifications that the server writes.
use qq_copy.Base.{
  ℕ, ◌+◌, ◌<◌, ◌≡◌, ◌^◌, sym, ap, ◌∙◌, List, [], ◌++◌, length, arith, append_assoc, append-nil,
  le→leb, lt→ltb,
}
use qq_copy.Base.Int.{ℤ, IsSigned}
use qq_copy.Outcome.{ok, guard-le}
use qq_copy.Wire.{write_uint16, write_int32, write_string, read_uint16, read_int32}
use qq_copy.Wire.RoundTrip.{
  At, At-skip, At-uint16, At-int32, read_int32-write_int32, read_string-append,
  read_uint16-write_uint16, read_uint16-write_string,
}
use qq_copy.Protocol.{ErrorCode, error_value, success}
use qq_copy.ServerCodec.{
  encode_login_response, encode_register_response, encode_security_question_response,
  encode_reset_password_response, encode_version_check_response,
}
use qq_copy.ClientCodec.{
  read_trailing, read_optional, decode_login_response, decode_register_response,
  decode_security_question_response, decode_reset_password_response, decode_version_check_response,
}
use qq_copy.RoundTrip.{write_int32-append, write_string-append, At-start, At-string}

pub error_value-lt : (code : ErrorCode) → error_value code < 2 ^ 16
unfolding error_value
error_value-lt success = omega arith
error_value-lt _ = omega arith

module _ (bytes : List ℕ) (offset : ℕ) (str : List ℕ) (str_fits : length str < 2 ^ 16) where
  -- A counted string is read as a trailing and as an optional string.
  read_trailing-write_string :
      At bytes offset (write_string [] str) → read_trailing bytes offset ≡ ok str
  unfolding read_trailing
  read_trailing-write_string h =
      let same : write_string [] str ≡ write_string [] str ++ [] =
        sym (append-nil (write_string [] str)) in
      let h' : At bytes offset (write_string [] str ++ []) = rw same at h in
      let (len, after) = read_uint16-write_string bytes offset [] str str_fits h' in
      let room = At-string bytes offset str [] h' in
      rw (lt→ltb offset (length bytes) (omega arith)) (
        rw len (
          rw (le→leb (offset + 2 + length str) (length bytes) room)
            (read_string-append bytes (offset + 2) str [] after)))

  read_optional-write_string :
      (rest : List ℕ)
      → At bytes offset (write_string [] str ++ rest)
      → (read_optional bytes offset ≡ ok (str, offset + 2 + length str))
        × At bytes (offset + 2 + length str) rest
  unfolding read_optional
  read_optional-write_string rest h =
      let (len, after) = read_uint16-write_string bytes offset rest str str_fits h in
      let room = At-string bytes offset str rest h in
      (
        rw (le→leb (offset + 2) (length bytes) (omega arith)) (
            rw len (
              rw (le→leb (offset + 2 + length str) (length bytes) room)
                (rw (read_string-append bytes (offset + 2) str rest after)))),
        At-skip bytes (offset + 2) str rest after,
      )

-- The fixed fields at the head of most responses: a code, an int.
module _ (code : ErrorCode) (id : ℤ) (id_fits : IsSigned (2 ^ 31) id) where
  code_id_fields :
      (bytes rest : List ℕ)
      → bytes ≡ write_uint16 [] (error_value code) ++ (write_int32 [] id ++ rest)
      → (read_uint16 bytes 0 ≡ ok (error_value code))
        × (read_int32 bytes 2 ≡ ok id)
        × At bytes 6 rest
  code_id_fields bytes rest e =
      let start = At-start bytes _ e in
      let a1 = At-uint16 bytes 0 _ (error_value code) start in
      (
        read_uint16-write_uint16 bytes 0 (error_value code) _ (error_value-lt code) start,
        read_int32-write_int32 bytes 2 id rest id_fits a1,
        At-int32 bytes 2 rest id a1,
      )

  code_id_append :
      (str : List ℕ)
      → write_string (write_int32 (write_uint16 [] (error_value code)) id) str
        ≡ write_uint16 [] (error_value code) ++ (write_int32 [] id ++ write_string [] str)
  code_id_append str =
      write_string-append _ str
      ∙ ap (λ b. b ++ write_string [] str) (write_int32-append _ id)
      ∙ append_assoc (write_uint16 [] (error_value code)) (write_int32 [] id) (write_string [] str)

  login_fields :
      (name bytes : List ℕ)
      → length name < 2 ^ 16
      → bytes ≡ write_uint16 [] (error_value code) ++ (write_int32 [] id ++ write_string [] name)
      → decode_login_response bytes
        ≡ ok (record { error_code = error_value code; user_id = id; username = name })
  unfolding decode_login_response
  login_fields name bytes fits e =
      let (e1, e2, a) = code_id_fields bytes _ e in
      rw (guard-le 6 (length bytes) (omega (arith, a)))
        (rw e1 (rw e2 (rw (read_trailing-write_string bytes 6 name fits a))))

  -- The client reads back a login response with its code, any int as user and a name of fewer than
  -- 2 ^ 16 bytes.
  pub decode_login_response-encode :
      (name : List ℕ)
      → length name < 2 ^ 16
      → decode_login_response
          (encode_login_response (record { error_code = code; user_id = id; username = name }))
        ≡ ok (record { error_code = error_value code; user_id = id; username = name })
  unfolding encode_login_response
  decode_login_response-encode name fits = login_fields name _ fits (code_id_append name)

  register_fields :
      (bytes : List ℕ)
      → bytes ≡ write_uint16 [] (error_value code) ++ (write_int32 [] id ++ [])
      → decode_register_response bytes ≡ ok (record { error_code = error_value code; user_id = id })
  unfolding decode_register_response
  register_fields bytes e =
      let (e1, e2, a) = code_id_fields bytes [] e in
      rw (guard-le 6 (length bytes) (omega (arith, a))) (rw e1 (rw e2))

  version_fields :
      (url desc bytes : List ℕ)
      → length url < 2 ^ 16
      → length desc < 2 ^ 16
      → bytes
        ≡ write_uint16 [] (error_value code)
          ++ (write_int32 [] id ++ (write_string [] url ++ (write_string [] desc ++ [])))
      → decode_version_check_response bytes
        ≡ ok (record {
          error_code = error_value code;
          server_version = id;
          update_url = url;
          update_desc = desc;
        })
  unfolding decode_version_check_response
  version_fields url desc bytes url_fits desc_fits e =
      let (e1, e2, a) = code_id_fields bytes _ e in
      let (e3, b) = read_optional-write_string bytes 6 url url_fits _ a in
      let (e4, _) = read_optional-write_string bytes (6 + 2 + length url) desc desc_fits [] b in
      rw (guard-le 6 (length bytes) (omega (arith, a))) (rw e1 (rw e2 (rw e3 (rw e4))))

  version_append :
      (url desc : List ℕ)
      → write_string (write_string (write_int32 (write_uint16 [] (error_value code)) id) url) desc
        ≡ write_uint16 [] (error_value code)
          ++ (write_int32 [] id ++ (write_string [] url ++ (write_string [] desc ++ [])))
  version_append url desc =
      write_string-append _ desc
      ∙ ap (λ b. b ++ write_string [] desc) (code_id_append url)
      ∙ append_assoc (write_uint16 [] (error_value code)) (write_int32 [] id ++ write_string [] url)
          (write_string [] desc)
      ∙ ap (λ b. write_uint16 [] (error_value code) ++ b)
          (append_assoc (write_int32 [] id) (write_string [] url) (write_string [] desc)
            ∙ ap (λ b. write_int32 [] id ++ (write_string [] url ++ b))
                (sym (append-nil (write_string [] desc))))

  -- The client reads back a version response with its code, any int as version and two texts of
  -- fewer than 2 ^ 16 bytes each, and a registration response with its code and any int as user.
  pub decode_version_check_response-encode :
      (url desc : List ℕ)
      → length url < 2 ^ 16
      → length desc < 2 ^ 16
      → (decode_version_check_response (
            encode_version_check_response (record {
              error_code = code;
              server_version = id;
              update_url = url;
              update_desc = desc;
            }))
          ≡ ok (record {
            error_code = error_value code;
            server_version = id;
            update_url = url;
            update_desc = desc;
          }))
        × (decode_register_response
              (encode_register_response (record { error_code = code; user_id = id }))
            ≡ ok (record { error_code = error_value code; user_id = id }))
  unfolding encode_version_check_response encode_register_response
  decode_version_check_response-encode url desc url_fits desc_fits = (
    version_fields url desc _ url_fits desc_fits (version_append url desc),
    register_fields _ (
        write_int32-append _ id
        ∙ ap (λ b. write_uint16 [] (error_value code) ++ b) (sym (append-nil (write_int32 [] id)))),
  )

question_fields :
    (code : ErrorCode) (question bytes : List ℕ)
    → length question < 2 ^ 16
    → bytes ≡ write_uint16 [] (error_value code) ++ write_string [] question
    → decode_security_question_response bytes
      ≡ ok (record { error_code = error_value code; question = question })
unfolding decode_security_question_response
question_fields code question bytes fits e =
    let start = At-start bytes _ e in
    let a = At-uint16 bytes 0 _ (error_value code) start in
    rw (guard-le 2 (length bytes) (omega (arith, a))) (
      rw (read_uint16-write_uint16 bytes 0 (error_value code) _ (error_value-lt code) start)
        (rw (read_trailing-write_string bytes 2 question fits a)))

reset_fields :
    (code : ErrorCode) (bytes : List ℕ)
    → bytes ≡ write_uint16 [] (error_value code) ++ []
    → decode_reset_password_response bytes ≡ ok (record { error_code = error_value code })
unfolding decode_reset_password_response
reset_fields code bytes e =
    let start = At-start bytes _ e in
    let a = At-uint16 bytes 0 _ (error_value code) start in
    rw (guard-le 2 (length bytes) (omega (arith, a)))
      (rw (read_uint16-write_uint16 bytes 0 (error_value code) _ (error_value-lt code) start))

-- The client reads back a security question response with its code and a question of fewer than
-- 2 ^ 16 bytes, and a password reset response with its code.
pub decode_security_question_response-encode :
    (code : ErrorCode) (question : List ℕ)
    → length question < 2 ^ 16
    → (decode_security_question_response
          (encode_security_question_response (record { error_code = code; question = question }))
        ≡ ok (record { error_code = error_value code; question = question }))
      × (decode_reset_password_response
            (encode_reset_password_response (record { error_code = code }))
          ≡ ok (record { error_code = error_value code }))
unfolding encode_security_question_response encode_reset_password_response
decode_security_question_response-encode code question fits = (
  question_fields code question _ fits (write_string-append _ question),
  reset_fields code _ (sym (append-nil _)),
)
