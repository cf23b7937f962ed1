-- ===== src/ClientCodec.antt =====
-- The encoders of requests and the decoders of responses of
-- android/app/src/main/cpp/protocol_codec.cpp. The client compares an error code with SUCCESS and
-- passes it on as an int, so it is the uint16_t that the enumeration holds.
pub mod Safety
pub mod Trailing
use qq_copy.Base.{
  ℕ, zero, suc, ◌+◌, ◌%◌, ◌^◌, List, [], ◌∷◌, ◌++◌, length, drop, leb, ltb, ◌==◌, if◌then◌else◌,
}
use qq_copy.Base.Int.{ℤ}
use qq_copy.Outcome.{Outcome, ok, malformed, fault, ◌>>=◌, ◌>>◌, guard}
use qq_copy.Wire.{
  write_uint16, write_uint32, write_int32, write_string, read_uint16, read_uint32, read_int32,
  read_int64, read_string, read_counted,
}
use qq_copy.Protocol.{
  CommandCode, command_value, command_code, header_size, protocol_version, MessageNotify,
}
use qq_copy.Protocol.{
  login_req, message_req, friend_list_req, add_friend_req, register_req, security_question_req,
  reset_password_req, version_check_req,
}

pub record LoginResponse : Type 0 where
  pub error_code : ℕ
  pub user_id : ℤ
  pub username : List ℕ

pub record FriendInfo : Type 0 where
  pub friend_id : ℤ
  pub friend_name : List ℕ

pub record RegisterResponse : Type 0 where
  pub error_code : ℕ
  pub user_id : ℤ

pub record SecurityQuestionResponse : Type 0 where
  pub error_code : ℕ
  pub question : List ℕ

pub record ResetPasswordResponse : Type 0 where
  pub error_code : ℕ

pub record VersionCheckResponse : Type 0 where
  pub error_code : ℕ
  pub server_version : ℤ
  pub update_url : List ℕ
  pub update_desc : List ℕ

unfoldable pub encode : CommandCode → List ℕ → List ℕ
encode command payload =
    let buffer = protocol_version ∷ [] in
    let buffer1 = write_uint16 buffer (command_value command) in
    let buffer2 = write_uint32 buffer1 (length payload % 2 ^ 32) in buffer2 ++ payload

-- It returns the command and the data; the version byte is not looked at.
unfoldable pub decode : List ℕ → Outcome (CommandCode × List ℕ)
decode buffer = do
  guard (leb header_size (length buffer))
  cmd ← read_uint16 buffer 1
  len ← read_uint32 buffer 3
  guard (length buffer == header_size + len)
  ok (command_code cmd, drop header_size buffer)

unfoldable pub encode_login_request : List ℕ → List ℕ → List ℕ
encode_login_request username password =
    encode login_req (write_string (write_string [] username) password)

-- The two tests of the trailing string: there is a byte left, and the string fits. Otherwise the
-- string stays empty. One byte left is not enough for the length.
unfoldable pub read_trailing : List ℕ → ℕ → Outcome (List ℕ)
read_trailing bytes offset =
    if ltb offset (length bytes)
    then (do
      len ← read_uint16 bytes offset
      if leb (offset + 2 + len) (length bytes) then read_string bytes (offset + 2) len else ok [])
    else ok []

unfoldable pub decode_login_response : List ℕ → Outcome LoginResponse
decode_login_response bytes = do
  guard (leb 6 (length bytes))
  error_code ← read_uint16 bytes 0
  user_id ← read_int32 bytes 2
  username ← read_trailing bytes 6
  ok (record { error_code = error_code; user_id = user_id; username = username })

unfoldable pub encode_message_request : ℤ → List ℕ → List ℕ
encode_message_request to_id content =
    let payload = write_int32 [] to_id in
    let payload1 = write_uint32 payload (length content % 2 ^ 32) in
    encode message_req (payload1 ++ content)

-- `8 + content_len + 8` and the index `8 + content_len` are computed in uint32_t.
unfoldable pub decode_message_notify : List ℕ → Outcome MessageNotify
decode_message_notify bytes = do
  guard (leb 16 (length bytes))
  from_id ← read_int32 bytes 0
  content_len ← read_uint32 bytes 4
  guard (leb ((8 + content_len + 8) % 2 ^ 32) (length bytes))
  content ← read_string bytes 8 content_len
  timestamp ← read_int64 bytes ((8 + content_len) % 2 ^ 32)
  ok (record { from_id = from_id; content = content; timestamp = timestamp })

unfoldable pub encode_friend_list_request : List ℕ
encode_friend_list_request = encode friend_list_req []

-- One round of the loop: `malformed` is its `break`.
unfoldable pub read_friend : List ℕ → ℕ → Outcome (FriendInfo × ℕ)
read_friend bytes offset = do
  guard (leb (offset + 4) (length bytes))
  friend_id ← read_int32 bytes offset
  guard (leb (offset + 4 + 2) (length bytes))
  (friend_name, offset1) ← read_counted bytes (offset + 4)
  ok (record { friend_id = friend_id; friend_name = friend_name }, offset1)

-- The rounds left of `for (uint32_t i = 0; i < count; ++i)`. A `break` ends it with the friends so
-- far, which is what is left to add: nothing.
unfoldable pub read_friends : ℕ → List ℕ → ℕ → Outcome (List FriendInfo)
read_friends zero bytes offset = ok []
read_friends (suc rounds) bytes offset = elim (read_friend bytes offset) [
  | ok (info, offset1) ↦ (read_friends rounds bytes offset1 >>= λ friends. ok (info ∷ friends))
  | malformed ↦ ok []
  | fault ↦ fault
]

unfoldable pub decode_friend_list_response : List ℕ → Outcome (List FriendInfo)
decode_friend_list_response bytes = do
  guard (leb 6 (length bytes))
  error_code ← read_uint16 bytes 0
  guard (error_code == 0x0000)
  count ← read_uint32 bytes 2
  read_friends count bytes 6

unfoldable pub encode_add_friend_request : ℤ → List ℕ
encode_add_friend_request friend_id = encode add_friend_req (write_int32 [] friend_id)

unfoldable pub encode_register_request : List ℕ → List ℕ → List ℕ → List ℕ → List ℕ
encode_register_request username password security_question security_answer =
    let payload = write_string [] username in
    let payload1 = write_string payload password in
    let payload2 = write_string payload1 security_question in
    encode register_req (write_string payload2 security_answer)

unfoldable pub decode_register_response : List ℕ → Outcome RegisterResponse
decode_register_response bytes = do
  guard (leb 6 (length bytes))
  error_code ← read_uint16 bytes 0
  user_id ← read_int32 bytes 2
  ok (record { error_code = error_code; user_id = user_id })

unfoldable pub encode_security_question_request : List ℕ → List ℕ
encode_security_question_request username = encode security_question_req (write_string [] username)

unfoldable pub decode_security_question_response : List ℕ → Outcome SecurityQuestionResponse
decode_security_question_response bytes = do
  guard (leb 2 (length bytes))
  error_code ← read_uint16 bytes 0
  question ← read_trailing bytes 2
  ok (record { error_code = error_code; question = question })

unfoldable pub encode_reset_password_request : List ℕ → List ℕ → List ℕ → List ℕ
encode_reset_password_request username new_password security_answer =
    let payload = write_string [] username in
    let payload1 = write_string payload new_password in
    encode reset_password_req (write_string payload1 security_answer)

unfoldable pub decode_reset_password_response : List ℕ → Outcome ResetPasswordResponse
decode_reset_password_response bytes = do
  guard (leb 2 (length bytes))
  error_code ← read_uint16 bytes 0
  ok (record { error_code = error_code })

unfoldable pub encode_version_check_request : ℤ → List ℕ
encode_version_check_request client_version =
    encode version_check_req (write_int32 [] client_version)

-- `if (offset + len <= data.size())` behind a length.
unfoldable pub read_sized : List ℕ → ℕ → ℕ → Outcome (List ℕ × ℕ)
read_sized bytes offset len =
    if leb (offset + len) (length bytes)
    then (do str ← read_string bytes offset len; ok (str, offset + len))
    else ok ([], offset)

-- `if (offset + 2 <= data.size())`: the string, and the offset, which the source moves over the
-- length even where the string does not fit.
unfoldable pub read_optional : List ℕ → ℕ → Outcome (List ℕ × ℕ)
unfolding read_sized
read_optional bytes offset =
    if leb (offset + 2) (length bytes)
    then (read_uint16 bytes offset >>= read_sized bytes (offset + 2))
    else ok ([], offset)

unfoldable pub decode_version_check_response : List ℕ → Outcome VersionCheckResponse
decode_version_check_response bytes = do
  guard (leb 6 (length bytes))
  error_code ← read_uint16 bytes 0
  server_version ← read_int32 bytes 2
  (update_url, offset) ← read_optional bytes 6
  (update_desc, _) ← read_optional bytes offset
  ok (record {
    error_code = error_code;
    server_version = server_version;
    update_url = update_url;
    update_desc = update_desc;
  })
