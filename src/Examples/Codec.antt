-- ===== src/Examples/Codec.antt =====
-- Runs of the codecs' theorems.
use qq_copy.Base.{ℕ, ◌+◌, ◌*◌, ◌^◌, ◌<◌, ◌≤◌, ◌≡◌, ◌↔◌, refl, List, [], ◌∷◌, length, arith}
use qq_copy.Base.Int.{IsSigned}
use qq_copy.Outcome.{ok, fault, Ensures}
use qq_copy.Wire.{byte_at, read_uint32}
use qq_copy.Protocol
use qq_copy.Protocol.{
  Packet, CommandCode, ErrorCode, success, user_not_found, error_value, login_req, register_req,
  message_req, reset_password_req, security_question_req, version_check_req, add_friend_req,
}
use qq_copy.Protocol.Packets.{IsPacket, decode-encode}
use qq_copy.Protocol.Inverse.{decode-encoding}
use qq_copy.ServerCodec.{
  decode_login_request, decode_register_request, decode_security_question_request,
  decode_reset_password_request, decode_version_check_request, decode_message_request,
}
use qq_copy.ServerCodec.Safety.{request_decoders_safe}
use qq_copy.ServerCodec.Overflow.{decode_message_request_fault_iff}
use qq_copy.ClientCodec.{
  decode_login_response, decode_version_check_response, decode_register_response,
  decode_security_question_response, decode_reset_password_response, decode_friend_list_response,
}
use qq_copy.ClientCodec.Safety.{response_decoders_safe}
use qq_copy.ClientCodec.Trailing.{trailing_length_fault_iff}
use qq_copy.Examples.{are_bytes-IsBytes, pw, login_payload, login_packet}

login_packet-IsPacket : IsPacket login_packet
login_packet-IsPacket = record {
  version_fits = omega arith;
  command_fits = tt;
  payload_fits = omega arith;
}

decode-encode_example : Protocol.decode (Protocol.encode login_packet) ≡ ok login_packet
decode-encode_example = decode-encode login_packet login_packet-IsPacket

abbrev packet_bytes : List ℕ
packet_bytes = 1 ∷ 0 ∷ 1 ∷ 0 ∷ 0 ∷ 0 ∷ 10 ∷ login_payload

decode-encoding_example :
    Ensures (Protocol.decode packet_bytes) (λ p. (Protocol.encode p ≡ packet_bytes) × IsPacket p)
decode-encoding_example = decode-encoding packet_bytes (are_bytes-IsBytes packet_bytes refl)

request_decoders_safe_example :
    Ensures
      (decode_login_request login_payload)
      (λ req. 4 + length req.username + length req.password ≤ length login_payload)
    × Ensures (decode_register_request login_payload) (λ req.
      8
        + length req.username
        + length req.password
        + length req.security_question
        + length req.security_answer
      ≤ length login_payload)
    × Ensures
        (decode_security_question_request login_payload)
        (λ req. 2 + length req.username ≤ length login_payload)
    × Ensures (decode_reset_password_request login_payload) (λ req.
      6 + length req.username + length req.new_password + length req.security_answer
      ≤ length login_payload)
    × Ensures
        (decode_version_check_request login_payload)
        (λ req. IsSigned (2 ^ 31) req.client_version)
request_decoders_safe_example =
    request_decoders_safe login_payload (are_bytes-IsBytes login_payload refl)

-- One friend, "pw", under the number 7.
abbrev friends_payload : List ℕ
friends_payload = 0 ∷ 0 ∷ 0 ∷ 0 ∷ 0 ∷ 1 ∷ 0 ∷ 0 ∷ 0 ∷ 7 ∷ 0 ∷ 2 ∷ pw

response_decoders_safe_example :
    Ensures
      (decode_friend_list_response friends_payload)
      (λ friends. 6 + 6 * length friends ≤ length friends_payload)
    × Ensures
        (decode_version_check_response friends_payload)
        (λ resp. length resp.update_url ≤ length friends_payload)
    × Ensures (decode_register_response friends_payload) (λ resp. resp.error_code < 2 ^ 16)
    × Ensures (decode_reset_password_response friends_payload) (λ resp. resp.error_code < 2 ^ 16)
response_decoders_safe_example =
    response_decoders_safe friends_payload (are_bytes-IsBytes friends_payload refl)

-- A message to the user 5 whose length field is 2 ^ 32 - 1.
abbrev huge_message : List ℕ
huge_message = 0 ∷ 0 ∷ 0 ∷ 5 ∷ 255 ∷ 255 ∷ 255 ∷ 255 ∷ []

huge_message-length : read_uint32 huge_message 4 ≡ ok 4294967295
unfolding read_uint32 byte_at
huge_message-length = refl

decode_message_request_fault_iff_example :
    (decode_message_request huge_message ≡ fault) ↔ (2 ^ 32 ≤ 4294967295 + 8)
decode_message_request_fault_iff_example =
    decode_message_request_fault_iff huge_message (are_bytes-IsBytes huge_message refl)
      (omega arith) (omega arith) 4294967295 huge_message-length

-- A login response of the user 7 with one byte behind it.
abbrev cut_login : List ℕ
cut_login = 0 ∷ 0 ∷ 0 ∷ 0 ∷ 0 ∷ 7 ∷ 0 ∷ []

trailing_length_fault_iff_example :
    ((decode_login_response cut_login ≡ fault) ↔ (length cut_login ≡ 7))
    × ((decode_security_question_response cut_login ≡ fault) ↔ (length cut_login ≡ 3))
trailing_length_fault_iff_example =
    trailing_length_fault_iff cut_login (are_bytes-IsBytes cut_login refl)
