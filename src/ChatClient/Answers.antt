-- ===== src/ChatClient/Answers.antt =====
-- From the server's answer to the client's callback (ChatClient::handle_packet,
-- android/app/src/main/cpp/chat_client.cpp).
use qq_copy.Base.{
  ℕ, ◌+◌, ◌%◌, ◌^◌, ◌<◌, ◌≡◌, ap, ◌∙◌, List, [], ◌∷◌, length, arith, if◌then◌else◌, ==_iff, ◌++◌,
  length-append,
}
use qq_copy.Base.Int.{ℤ, IsSigned}
use qq_copy.Outcome.{ok, guard-le}
use qq_copy.Wire.{
  write_uint16, write_uint32, write_int32, write_int64, write_int64_loop, write_string,
}
use qq_copy.Wire.RoundTrip.{read_uint16-write_uint16, read_uint32-write_uint32}
use qq_copy.Protocol.{
  Packet, CommandCode, ErrorCode, error_value, command_value, encode, header_size, protocol_version,
  login_resp, message_notify,
}
use qq_copy.Protocol.Packets.{
  IsPacket, IsCommand, command_value-lt, command_code-command_value, length-encode, command-At,
  length-At, payload-At,
}
use qq_copy.ServerCodec.{encode_login_response, encode_message_notify}
use qq_copy.ClientCodec
use qq_copy.ClientCodec.{decode_login_response, decode_friend_list_response}
use qq_copy.RoundTrip.{write_int64-append}
use qq_copy.RoundTrip.Responses.{decode_login_response-encode}
use qq_copy.RoundTrip.Lists.{decode_message_notify-encode}
use qq_copy.ChatClient.{Callbacks, login_call, message_call, handle_command, handle_packet}

-- What the server sends under a command.
abbrev pub response_packet : CommandCode → List ℕ → List ℕ
response_packet command payload =
    encode (record { version = protocol_version; command = command; payload = payload })

client_decode-encode :
    (p : Packet) → IsPacket p → ClientCodec.decode (encode p) ≡ ok (p.command, p.payload)
unfolding ClientCodec.decode
client_decode-encode p h =
    rw (guard-le header_size (length (encode p)) (omega (arith, length-encode p))) (
      rw
        (read_uint16-write_uint16 (encode p) 1 (command_value p.command) _
          (command_value-lt p.command h.command_fits) (command-At p))
        (rw
          (read_uint32-write_uint32 (encode p) 3 (length p.payload % 2 ^ 32) _ (omega arith)
            (length-At p))
          (rw
            ((==_iff (length (encode p)) (header_size + length p.payload % 2 ^ 32)).1
              (omega (arith, length-encode p, h.payload_fits)))
            (rw (command_code-command_value p.command h.command_fits, payload-At p)))))

pub handle_packet-response :
    (set : Callbacks) (command : CommandCode) (payload : List ℕ)
    → IsCommand command
    → length payload < 2 ^ 32
    → handle_packet set (response_packet command payload) ≡ handle_command set command payload
unfolding handle_packet
handle_packet-response set command payload known small = rw (
  client_decode-encode (record { version = 1; command = command; payload = payload })
      (record { version_fits = omega arith; command_fits = known; payload_fits = small }),
  handle_packet,
)

length-login :
    (code : ErrorCode) (id : ℤ) (name : List ℕ)
    → length (encode_login_response (record { error_code = code; user_id = id; username = name }))
      ≡ 8 + length name
unfolding encode_login_response write_uint16 write_int32 write_uint32 write_string
length-login code id name = omega arith

-- A login response of the server calls the login callback, if it is set, with the code, the user and
-- the name of the response, for any int as user and a name of fewer than 2 ^ 16 bytes.
pub login_answer_is_called :
    (set : Callbacks) (code : ErrorCode) (id : ℤ) (name : List ℕ)
    → IsSigned (2 ^ 31) id
    → length name < 2 ^ 16
    → handle_packet set (
        response_packet login_resp
          (encode_login_response (record { error_code = code; user_id = id; username = name })))
      ≡ ok (if set.login_callback then login_call (error_value code) id name ∷ [] else [])
unfolding handle_command
login_answer_is_called set code id name id_fits name_fits =
    handle_packet-response set login_resp _ tt (omega (arith, length-login code id name))
    ∙ rw (decode_login_response-encode code id id_fits name name_fits)

length-write_int64 : (v : ℤ) → length (write_int64 [] v) ≡ 8
unfolding write_int64 write_int64_loop
length-write_int64 v = omega arith

length-notify :
    (from_id : ℤ) (content : List ℕ) (timestamp : ℤ)
    → length (
        encode_message_notify
          (record { from_id = from_id; content = content; timestamp = timestamp }))
      ≡ 16 + length content
unfolding encode_message_notify write_int32 write_uint32
length-notify from_id content timestamp =
    let front : List ℕ =
      write_uint32 (write_int32 [] from_id) (length content % 2 ^ 32) ++ content in
    omega (
      arith,
      ap length (write_int64-append front timestamp),
      length-append front (write_int64 [] timestamp),
      length-write_int64 timestamp,
    )

-- A notification of the server calls the message callback, if it is set, with the sender, the
-- content and the time of the notification, for any int as sender, a time of 64 bits signed and a
-- content of fewer than 2 ^ 32 - 16 bytes.
pub notification_is_called :
    (set : Callbacks) (from_id : ℤ) (content : List ℕ) (timestamp : ℤ)
    → IsSigned (2 ^ 31) from_id
    → IsSigned (2 ^ 63) timestamp
    → length content + 16 < 2 ^ 32
    → handle_packet set (
        response_packet message_notify (
          encode_message_notify
            (record { from_id = from_id; content = content; timestamp = timestamp })))
      ≡ ok (if set.message_callback then message_call from_id content timestamp ∷ [] else [])
unfolding handle_command
notification_is_called set from_id content timestamp id_fits time_fits small =
    handle_packet-response set message_notify _ tt
      (omega (arith, length-notify from_id content timestamp))
    ∙ rw (decode_message_notify-encode from_id content timestamp id_fits time_fits small)
