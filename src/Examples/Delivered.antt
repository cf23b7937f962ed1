-- ===== src/Examples/Delivered.antt =====
-- Runs of the theorems on the codecs of client and server together.
use qq_copy.Base.{[], ◌∷◌, arith, ℕ, ◌≡◌, List, ◌==◌}
use qq_copy.Base.Int.{ℤ}
use qq_copy.Outcome.{ok, guard, ◌>>◌}
use qq_copy.Wire.{read_int32}
use qq_copy.Protocol.{
  error_value, login_req, register_req, security_question_req, reset_password_req,
  version_check_req, message_req, add_friend_req,
}
use qq_copy.ServerCodec.{
  decode_login_request, decode_register_request, decode_security_question_request,
  decode_reset_password_request, decode_version_check_request, decode_message_request,
  encode_login_response, encode_register_response, encode_security_question_response,
  encode_reset_password_response, encode_version_check_response, encode_message_notify,
  encode_friend_list_response,
}
use qq_copy.ClientCodec
use qq_copy.ClientCodec.{
  encode_login_request, encode_register_request, encode_security_question_request,
  encode_reset_password_request, encode_version_check_request, encode_message_request,
  encode_add_friend_request, decode_login_response, decode_register_response,
  decode_security_question_response, decode_reset_password_response, decode_version_check_response,
  decode_friend_list_response,
}
use qq_copy.RoundTrip.{Delivers}
use qq_copy.RoundTrip.Lists.{friend_infos}
use qq_copy.RoundTrip.Both.{requests_delivered, responses_read_back}
use qq_copy.Base.Int.{pos, negsuc}
use qq_copy.Protocol.{success, message_resp, add_friend_resp}
use qq_copy.Base.{true}
use qq_copy.ServerCodec.{encode_message_response, encode_add_friend_response}
use qq_copy.ChatClient.{Callbacks, handle_packet}
use qq_copy.ChatClient.Answers.{response_packet}
use qq_copy.Examples.{anna, pw}

requests_delivered_example :
    Delivers
      (encode_login_request anna pw)
      login_req
      decode_login_request
      (record { username = anna; password = pw })
    × Delivers
        (encode_register_request anna pw pw anna)
        register_req
        decode_register_request
        (record { username = anna; password = pw; security_question = pw; security_answer = anna })
    × Delivers
        (encode_reset_password_request anna pw anna)
        reset_password_req
        decode_reset_password_request
        (record { username = anna; new_password = pw; security_answer = anna })
    × Delivers
        (encode_message_request (pos 8) pw)
        message_req
        decode_message_request
        (record { to_id = (pos 8); content = pw })
    × Delivers
        (encode_security_question_request anna)
        security_question_req
        decode_security_question_request
        (record { username = anna })
    × Delivers
        (encode_version_check_request (pos 8))
        version_check_req
        decode_version_check_request
        (record { client_version = (pos 8) })
    × Delivers
        (encode_add_friend_request (pos 8))
        add_friend_req
        (λ payload. read_int32 payload 0)
        (pos 8)
requests_delivered_example =
    requests_delivered anna pw pw anna pw (pos 8) (omega arith) (omega arith) (omega arith)
      (omega arith) (omega arith) (omega arith)

abbrev two_friends : List (ℤ × List ℕ)
two_friends = (pos 7, anna) ∷ (pos 9, pw) ∷ []

abbrev all_callbacks : Callbacks
all_callbacks = record {
  login_callback = true;
  message_callback = true;
  friend_list_callback = true;
  register_callback = true;
  security_question_callback = true;
  reset_password_callback = true;
  version_check_callback = true;
}

responses_read_back_example :
    (decode_login_response (
        encode_login_response
          (record { error_code = success; user_id = negsuc 4; username = anna }))
      ≡ ok (record { error_code = error_value success; user_id = negsuc 4; username = anna }))
    × (decode_register_response
          (encode_register_response (record { error_code = success; user_id = negsuc 4 }))
        ≡ ok (record { error_code = error_value success; user_id = negsuc 4 }))
    × (decode_version_check_response (
          encode_version_check_response (record {
            error_code = success;
            server_version = negsuc 4;
            update_url = pw;
            update_desc = anna;
          }))
        ≡ ok (record {
          error_code = error_value success;
          server_version = negsuc 4;
          update_url = pw;
          update_desc = anna;
        }))
    × (decode_security_question_response
          (encode_security_question_response (record { error_code = success; question = anna }))
        ≡ ok (record { error_code = error_value success; question = anna }))
    × (decode_reset_password_response
          (encode_reset_password_response (record { error_code = success }))
        ≡ ok (record { error_code = error_value success }))
    × (ClientCodec.decode_message_notify (
          encode_message_notify
            (record { from_id = negsuc 4; content = pw; timestamp = pos 1700000000000 }))
        ≡ ok (record { from_id = negsuc 4; content = pw; timestamp = pos 1700000000000 }))
    × (decode_friend_list_response
          (encode_friend_list_response (record { error_code = success; friends = two_friends }))
        ≡ (guard (error_value success == 0x0000) >> ok (friend_infos two_friends)))
    × (handle_packet all_callbacks (
          response_packet message_resp
            (encode_message_response (record { error_code = success; msg_id = negsuc 4 })))
        ≡ ok [])
    × (handle_packet all_callbacks (
          response_packet add_friend_resp
            (encode_add_friend_response (record { error_code = success })))
        ≡ ok [])
responses_read_back_example =
    responses_read_back all_callbacks success (negsuc 4) (pos 1700000000000) anna pw pw two_friends
      (omega arith) (omega arith) (omega arith) (omega arith) (omega arith)
      ((omega arith, omega arith), ((omega arith, omega arith), tt)) (omega arith)
