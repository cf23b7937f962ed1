-- ===== src/RoundTrip/Both.antt =====
-- All requests and all responses together.
use qq_copy.Base.{ℕ, ◌+◌, ◌<◌, ◌≡◌, ◌^◌, refl, ◌∙◌, [], arith, List, length, ◌==◌}
use qq_copy.Base.Int.{ℤ, IsSigned}
use qq_copy.Outcome.{ok, guard, ◌>>◌}
use qq_copy.Wire.{read_int32, write_uint16, write_uint32, write_int32}
use qq_copy.Protocol.{
  CommandCode, MessageResponse, AddFriendResponse, message_resp, add_friend_resp, ErrorCode,
  error_value, login_req, register_req, security_question_req, reset_password_req,
  version_check_req, message_req, add_friend_req,
}
use qq_copy.ServerCodec.{
  decode_login_request, decode_register_request, decode_security_question_request,
  decode_reset_password_request, decode_version_check_request, decode_message_request,
  encode_login_response, encode_register_response, encode_security_question_response,
  encode_reset_password_response, encode_version_check_response, encode_message_notify,
  encode_friend_list_response, encode_message_response, encode_add_friend_response,
}
use qq_copy.ClientCodec
use qq_copy.ClientCodec.{
  encode_login_request, encode_register_request, encode_security_question_request,
  encode_reset_password_request, encode_version_check_request, encode_message_request,
  encode_add_friend_request, decode_login_response, decode_register_response,
  decode_security_question_response, decode_reset_password_response, decode_version_check_response,
  decode_friend_list_response,
}
use qq_copy.ChatClient.{Callbacks, handle_command, handle_packet}
use qq_copy.ChatClient.Answers.{response_packet, handle_packet-response}
use qq_copy.Protocol.Packets.{IsCommand}
use qq_copy.RoundTrip.{Delivers}
use qq_copy.RoundTrip.Requests.{
  login_request_delivered, register_request_delivered, reset_password_request_delivered,
}
use qq_copy.RoundTrip.Messages.{message_request_delivered, short_requests_delivered}
use qq_copy.RoundTrip.Responses.{
  decode_login_response-encode, decode_version_check_response-encode,
  decode_security_question_response-encode,
}
use qq_copy.RoundTrip.Lists.{
  IsFriends, friend_infos, decode_friend_list_response-encode, decode_message_notify-encode,
}

-- The seven requests of the client that have a payload are what the server's codec makes of them,
-- under their commands, for all strings of fewer than 2 ^ 16 bytes, every int, and message contents of
-- fewer than 2 ^ 32 - 8 bytes: login, registration, password reset, security question, version check,
-- adding a friend, and sending a message. The server reads the length field of the first seven bytes
-- as the length of the rest, makes a packet of the two parts, and decodes the payload of the packet to
-- the request. (Whether it accepts the length is not part of this.)
pub requests_delivered :
    (u p q a content : List ℕ) (v : ℤ)
    → length u < 2 ^ 16
    → length p < 2 ^ 16
    → length q < 2 ^ 16
    → length a < 2 ^ 16
    → 8 + length content < 2 ^ 32
    → IsSigned (2 ^ 31) v
    → Delivers
        (encode_login_request u p)
        login_req
        decode_login_request
        (record { username = u; password = p })
      × Delivers
          (encode_register_request u p q a)
          register_req
          decode_register_request
          (record { username = u; password = p; security_question = q; security_answer = a })
      × Delivers
          (encode_reset_password_request u p a)
          reset_password_req
          decode_reset_password_request
          (record { username = u; new_password = p; security_answer = a })
      × Delivers
          (encode_message_request v content)
          message_req
          decode_message_request
          (record { to_id = v; content = content })
      × Delivers
          (encode_security_question_request u)
          security_question_req
          decode_security_question_request
          (record { username = u })
      × Delivers
          (encode_version_check_request v)
          version_check_req
          decode_version_check_request
          (record { client_version = v })
      × Delivers (encode_add_friend_request v) add_friend_req (λ payload. read_int32 payload 0) v
requests_delivered u p q a content v hu hp hq ha hc hv =
    let (question, version, friend) = short_requests_delivered u v hu hv in
    (
      login_request_delivered u p hu hp,
      register_request_delivered u p hu hp a ha q hq,
      reset_password_request_delivered u p hu hp a ha,
      message_request_delivered v content hv hc,
      question,
      version,
      friend,
    )

length-encode_message_response :
    (resp : MessageResponse) → length (encode_message_response resp) ≡ 6
unfolding encode_message_response write_uint16 write_int32 write_uint32
length-encode_message_response resp = omega arith

length-encode_add_friend_response :
    (resp : AddFriendResponse) → length (encode_add_friend_response resp) ≡ 2
unfolding encode_add_friend_response write_uint16
length-encode_add_friend_response resp = omega arith

-- The client does nothing on a packet with one of these commands.
unread_response :
    (set : Callbacks) (command : CommandCode) (payload : List ℕ)
    → IsCommand command
    → length payload < 2 ^ 32
    → handle_command set command payload ≡ ok []
    → handle_packet set (response_packet command payload) ≡ ok []
unread_response set command payload known small e =
    handle_packet-response set command payload known small ∙ e

module _ (set : Callbacks) (code : ErrorCode) (id time : ℤ) (name url content : List ℕ)
    (friends : List (ℤ × List ℕ)) where
  -- What the client does with the responses and the notification of the server, with any error code,
  -- any int as user, message or version, a time of 64 bits, texts of fewer than 2 ^ 16 bytes, a content
  -- of fewer than 2 ^ 32 - 16 bytes, and fewer than 2 ^ 32 friends, whose ids are ints and whose names
  -- have fewer than 2 ^ 16 bytes. It decodes login, registration, version, security question and
  -- password reset, the notification, and the list of friends, in order, to what the server encoded,
  -- but the list of friends only without an error code; with one it refuses the list. The responses to
  -- a message and to the adding of a friend call none of its callbacks.
  pub responses_read_back :
      IsSigned (2 ^ 31) id
      → IsSigned (2 ^ 63) time
      → length name < 2 ^ 16
      → length url < 2 ^ 16
      → length content + 16 < 2 ^ 32
      → IsFriends friends
      → length friends < 2 ^ 32
      → (decode_login_response
            (encode_login_response (record { error_code = code; user_id = id; username = name }))
          ≡ ok (record { error_code = error_value code; user_id = id; username = name }))
        × (decode_register_response
              (encode_register_response (record { error_code = code; user_id = id }))
            ≡ ok (record { error_code = error_value code; user_id = id }))
        × (decode_version_check_response (
              encode_version_check_response (record {
                error_code = code;
                server_version = id;
                update_url = url;
                update_desc = name;
              }))
            ≡ ok (record {
              error_code = error_value code;
              server_version = id;
              update_url = url;
              update_desc = name;
            }))
        × (decode_security_question_response
              (encode_security_question_response (record { error_code = code; question = name }))
            ≡ ok (record { error_code = error_value code; question = name }))
        × (decode_reset_password_response
              (encode_reset_password_response (record { error_code = code }))
            ≡ ok (record { error_code = error_value code }))
        × (ClientCodec.decode_message_notify
              (encode_message_notify (record { from_id = id; content = content; timestamp = time }))
            ≡ ok (record { from_id = id; content = content; timestamp = time }))
        × (decode_friend_list_response
              (encode_friend_list_response (record { error_code = code; friends = friends }))
            ≡ (guard (error_value code == 0x0000) >> ok (friend_infos friends)))
        × (handle_packet set (
              response_packet message_resp
                (encode_message_response (record { error_code = code; msg_id = id })))
            ≡ ok [])
        × (handle_packet set (
              response_packet add_friend_resp
                (encode_add_friend_response (record { error_code = code })))
            ≡ ok [])
  unfolding handle_command
  responses_read_back hid htime hname hurl hcontent hfriends hcount =
      let (version, register) =
        decode_version_check_response-encode code id hid url name hurl hname in
      let (question, reset) = decode_security_question_response-encode code name hname in
      (
        decode_login_response-encode code id hid name hname,
        register,
        version,
        question,
        reset,
        decode_message_notify-encode id content time hid htime hcontent,
        decode_friend_list_response-encode code friends hfriends hcount,
        unread_response set message_resp _ tt
            (omega
              (arith, length-encode_message_response (record { error_code = code; msg_id = id })))
            refl,
        unread_response set add_friend_resp _ tt
            (omega (arith, length-encode_add_friend_response (record { error_code = code }))) refl,
      )
