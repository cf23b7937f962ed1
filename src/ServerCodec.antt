-- ===== src/ServerCodec.antt =====
-- The decoders of requests and the encoders of responses of server/src/protocol_codec.cpp.
-- A decoder's reference parameter is its result; the callers use it only after `true`.
pub mod Safety
pub mod Overflow
use qq_copy.Base.{ℕ, ◌+◌, ◌%◌, ◌^◌, List, [], ◌∷◌, ◌++◌, length, leb}
use qq_copy.Base.Int.{ℤ}
use qq_copy.Outcome.{Outcome, ok, ◌>>=◌, ◌>>◌, guard}
use qq_copy.Wire.{
  write_uint16, write_uint32, write_int32, write_int64, write_string, read_uint32, read_int32,
  read_int64, read_string, read_counted,
}
use qq_copy.Protocol.{
  error_value, LoginRequest, LoginResponse, MessageRequest, MessageResponse, MessageNotify,
  FriendListResponse, AddFriendResponse, RegisterRequest, RegisterResponse, SecurityQuestionRequest,
  SecurityQuestionResponse, ResetPasswordRequest, ResetPasswordResponse, VersionCheckRequest,
  VersionCheckResponse,
}

unfoldable pub decode_login_request : List ℕ → Outcome LoginRequest
decode_login_request bytes = do
  guard (leb 4 (length bytes))
  (username, offset) ← read_counted bytes 0
  guard (leb (offset + 2) (length bytes))
  (password, _) ← read_counted bytes offset
  ok (record { username = username; password = password })

unfoldable pub encode_login_response : LoginResponse → List ℕ
encode_login_response resp =
    let buffer = write_uint16 [] (error_value resp.error_code) in
    let buffer1 = write_int32 buffer resp.user_id in write_string buffer1 resp.username

-- `4 + 4 + content_len` is computed in uint32_t, and wraps.
unfoldable pub decode_message_request : List ℕ → Outcome MessageRequest
decode_message_request bytes = do
  guard (leb 8 (length bytes))
  to_id ← read_int32 bytes 0
  content_len ← read_uint32 bytes 4
  guard (leb ((4 + 4 + content_len) % 2 ^ 32) (length bytes))
  content ← read_string bytes 8 content_len
  ok (record { to_id = to_id; content = content })

unfoldable pub encode_message_response : MessageResponse → List ℕ
encode_message_response resp =
    let buffer = write_uint16 [] (error_value resp.error_code) in write_int32 buffer resp.msg_id

unfoldable pub encode_message_notify : MessageNotify → List ℕ
encode_message_notify notify =
    let buffer = write_int32 [] notify.from_id in
    let buffer1 = write_uint32 buffer (length notify.content % 2 ^ 32) in
    write_int64 (buffer1 ++ notify.content) notify.timestamp

-- The server has this decoder too, and the client has the same text. `8 + content_len + 8` and
-- the index `8 + content_len` are computed in uint32_t.
unfoldable pub decode_message_notify : List ℕ → Outcome MessageNotify
decode_message_notify bytes = do
  guard (leb 16 (length bytes))
  from_id ← read_int32 bytes 0
  content_len ← read_uint32 bytes 4
  guard (leb ((8 + content_len + 8) % 2 ^ 32) (length bytes))
  content ← read_string bytes 8 content_len
  timestamp ← read_int64 bytes ((8 + content_len) % 2 ^ 32)
  ok (record { from_id = from_id; content = content; timestamp = timestamp })

-- `for (const auto& friend_pair : resp.friends)`
unfoldable pub write_friends : List ℕ → List (ℤ × List ℕ) → List ℕ
write_friends buffer [] = buffer
write_friends buffer ((friend_id, friend_name) ∷ friends) =
    write_friends (write_string (write_int32 buffer friend_id) friend_name) friends

unfoldable pub encode_friend_list_response : FriendListResponse → List ℕ
encode_friend_list_response resp =
    let buffer = write_uint16 [] (error_value resp.error_code) in
    let buffer1 = write_uint32 buffer (length resp.friends % 2 ^ 32) in
    write_friends buffer1 resp.friends

unfoldable pub encode_add_friend_response : AddFriendResponse → List ℕ
encode_add_friend_response resp = write_uint16 [] (error_value resp.error_code)

unfoldable pub decode_register_request : List ℕ → Outcome RegisterRequest
decode_register_request bytes = do
  guard (leb 6 (length bytes))
  (username, offset) ← read_counted bytes 0
  guard (leb (offset + 2) (length bytes))
  (password, offset1) ← read_counted bytes offset
  guard (leb (offset1 + 2) (length bytes))
  (security_question, offset2) ← read_counted bytes offset1
  guard (leb (offset2 + 2) (length bytes))
  (security_answer, _) ← read_counted bytes offset2
  ok (record {
    username = username;
    password = password;
    security_question = security_question;
    security_answer = security_answer;
  })

unfoldable pub encode_register_response : RegisterResponse → List ℕ
encode_register_response resp =
    let buffer = write_uint16 [] (error_value resp.error_code) in write_int32 buffer resp.user_id

unfoldable pub decode_security_question_request : List ℕ → Outcome SecurityQuestionRequest
decode_security_question_request bytes = do
  guard (leb 2 (length bytes))
  (username, _) ← read_counted bytes 0
  ok (record { username = username })

unfoldable pub encode_security_question_response : SecurityQuestionResponse → List ℕ
encode_security_question_response resp =
    let buffer = write_uint16 [] (error_value resp.error_code) in write_string buffer resp.question

unfoldable pub decode_reset_password_request : List ℕ → Outcome ResetPasswordRequest
decode_reset_password_request bytes = do
  guard (leb 6 (length bytes))
  (username, offset) ← read_counted bytes 0
  guard (leb (offset + 2) (length bytes))
  (new_password, offset1) ← read_counted bytes offset
  guard (leb (offset1 + 2) (length bytes))
  (security_answer, _) ← read_counted bytes offset1
  ok (record {
    username = username;
    new_password = new_password;
    security_answer = security_answer;
  })

unfoldable pub encode_reset_password_response : ResetPasswordResponse → List ℕ
encode_reset_password_response resp = write_uint16 [] (error_value resp.error_code)

unfoldable pub decode_version_check_request : List ℕ → Outcome VersionCheckRequest
decode_version_check_request bytes = do
  guard (leb 4 (length bytes))
  client_version ← read_int32 bytes 0
  ok (record { client_version = client_version })

unfoldable pub encode_version_check_response : VersionCheckResponse → List ℕ
encode_version_check_response resp =
    let buffer = write_uint16 [] (error_value resp.error_code) in
    let buffer1 = write_int32 buffer resp.server_version in
    let buffer2 = write_string buffer1 resp.update_url in write_string buffer2 resp.update_desc
