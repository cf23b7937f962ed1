-- ===== src/Protocol.antt =====
-- server/include/qqchat/protocol_codec.hpp and android/app/src/main/cpp/protocol_codec.hpp: the
-- command and error codes, the message structs, and the packets of both `ProtocolCodec` classes.
-- An `int` is the integer that it holds, a string the list of its bytes.
pub mod Packets
pub mod Inverse
use qq_copy.Base.{ℕ, ◌+◌, ◌%◌, ◌^◌, List, [], ◌∷◌, ◌++◌, length, drop, leb, ◌==◌, if◌then◌else◌}
use qq_copy.Base.Int.{ℤ}
use qq_copy.Outcome.{Outcome, ok, ◌>>=◌, ◌>>◌, guard}
use qq_copy.Wire.{write_uint16, write_uint32, byte_at, read_uint16, read_uint32}

-- `enum class CommandCode : uint16_t`. A cast from uint16_t may give a value that has no name:
-- `unknown` holds it.
pub data CommandCode : Type 0 where
  login_req login_resp message_req message_resp message_notify friend_list_req : CommandCode
  friend_list_resp add_friend_req add_friend_resp register_req register_resp : CommandCode
  security_question_req security_question_resp reset_password_req : CommandCode
  reset_password_resp version_check_req version_check_resp : CommandCode
  unknown : ℕ → CommandCode

-- `static_cast<uint16_t>(command)`
unfoldable pub command_value : CommandCode → ℕ
command_value login_req = 0x0001
command_value login_resp = 0x0002
command_value message_req = 0x0003
command_value message_resp = 0x0004
command_value message_notify = 0x0005
command_value friend_list_req = 0x0006
command_value friend_list_resp = 0x0007
command_value add_friend_req = 0x0008
command_value add_friend_resp = 0x0009
command_value register_req = 0x000A
command_value register_resp = 0x000B
command_value security_question_req = 0x000C
command_value security_question_resp = 0x000D
command_value reset_password_req = 0x000E
command_value reset_password_resp = 0x000F
command_value version_check_req = 0x0010
command_value version_check_resp = 0x0011
command_value (unknown w) = w

-- `static_cast<CommandCode>(w)`
unfoldable pub command_code : ℕ → CommandCode
command_code w =
    if w == 0x0001
    then login_req
    else if w == 0x0002
    then login_resp
    else if w == 0x0003
    then message_req
    else if w == 0x0004
    then message_resp
    else if w == 0x0005
    then message_notify
    else if w == 0x0006
    then friend_list_req
    else if w == 0x0007
    then friend_list_resp
    else if w == 0x0008
    then add_friend_req
    else if w == 0x0009
    then add_friend_resp
    else if w == 0x000A
    then register_req
    else if w == 0x000B
    then register_resp
    else if w == 0x000C
    then security_question_req
    else if w == 0x000D
    then security_question_resp
    else if w == 0x000E
    then reset_password_req
    else if w == 0x000F
    then reset_password_resp
    else if w == 0x0010
    then version_check_req
    else if w == 0x0011
    then version_check_resp
    else unknown w

-- The server's `enum class ErrorCode : uint16_t`. The client's stops at SECURITY_QUESTION_NOT_SET.
pub data ErrorCode : Type 0 where
  success user_not_found wrong_password user_already_online user_offline : ErrorCode
  protocol_error database_error friend_request_exists cannot_add_self : ErrorCode
  username_exists invalid_answer security_question_not_set invalid_request : ErrorCode

-- `static_cast<uint16_t>(error_code)`
unfoldable pub error_value : ErrorCode → ℕ
error_value success = 0x0000
error_value user_not_found = 0x0001
error_value wrong_password = 0x0002
error_value user_already_online = 0x0003
error_value user_offline = 0x0004
error_value protocol_error = 0x0005
error_value database_error = 0x0006
error_value friend_request_exists = 0x0007
error_value cannot_add_self = 0x0008
error_value username_exists = 0x0009
error_value invalid_answer = 0x000A
error_value security_question_not_set = 0x000B
error_value invalid_request = 0x000C

pub record LoginRequest : Type 0 where
  pub username : List ℕ
  pub password : List ℕ

pub record LoginResponse : Type 0 where
  pub error_code : ErrorCode
  pub user_id : ℤ
  pub username : List ℕ

pub record MessageRequest : Type 0 where
  pub to_id : ℤ
  pub content : List ℕ

pub record MessageResponse : Type 0 where
  pub error_code : ErrorCode
  pub msg_id : ℤ

pub record MessageNotify : Type 0 where
  pub from_id : ℤ
  pub content : List ℕ
  pub timestamp : ℤ

pub record FriendListResponse : Type 0 where
  pub error_code : ErrorCode
  pub friends : List (ℤ × List ℕ)

pub record AddFriendRequest : Type 0 where
  pub user_id : ℤ
  pub friend_id : ℤ

pub record AddFriendResponse : Type 0 where
  pub error_code : ErrorCode

pub record RegisterRequest : Type 0 where
  pub username : List ℕ
  pub password : List ℕ
  pub security_question : List ℕ
  pub security_answer : List ℕ

pub record RegisterResponse : Type 0 where
  pub error_code : ErrorCode
  pub user_id : ℤ

pub record SecurityQuestionRequest : Type 0 where
  pub username : List ℕ

pub record SecurityQuestionResponse : Type 0 where
  pub error_code : ErrorCode
  pub question : List ℕ

pub record ResetPasswordRequest : Type 0 where
  pub username : List ℕ
  pub new_password : List ℕ
  pub security_answer : List ℕ

pub record ResetPasswordResponse : Type 0 where
  pub error_code : ErrorCode

pub record VersionCheckRequest : Type 0 where
  pub client_version : ℤ

pub record VersionCheckResponse : Type 0 where
  pub error_code : ErrorCode
  pub server_version : ℤ
  pub update_url : List ℕ
  pub update_desc : List ℕ

pub record Packet : Type 0 where
  pub version : ℕ
  pub command : CommandCode
  pub payload : List ℕ

abbrev pub protocol_version : ℕ
protocol_version = 1

abbrev pub header_size : ℕ
header_size = 7

-- The server's `ProtocolCodec::encode`.
unfoldable pub encode : Packet → List ℕ
unfolding command_value
encode packet =
    let buffer = packet.version ∷ [] in
    let buffer1 = write_uint16 buffer (command_value packet.command) in
    let buffer2 = write_uint32 buffer1 (length packet.payload % 2 ^ 32) in buffer2 ++ packet.payload

-- The server's `ProtocolCodec::decode`; `size_t` has 64 bits, so the sum does not wrap.
unfoldable pub decode : List ℕ → Outcome Packet
decode bytes = do
  guard (leb header_size (length bytes))
  version ← byte_at bytes 0
  command ← read_uint16 bytes 1
  len ← read_uint32 bytes 3
  guard (length bytes == header_size + len)
  ok (record {
    version = version;
    command = command_code command;
    payload = drop header_size bytes;
  })
