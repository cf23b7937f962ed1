-- ===== src/ChatClient/Session.antt =====
-- The requests of the client (android/app/src/main/cpp/chat_client.cpp): each keeps its callback and
-- hands one packet to the socket, if there is one. `send` is taken to write the whole packet.
use qq_copy.Base.{ℕ, List, [], ◌∷◌, ◌++◌, Bool, if◌then◌else◌}
use qq_copy.Base.Int.{ℤ}
use qq_copy.ClientCodec.{
  encode_login_request, encode_message_request, encode_friend_list_request,
  encode_add_friend_request, encode_register_request, encode_security_question_request,
  encode_reset_password_request, encode_version_check_request,
}
use qq_copy.ChatClient.{Callbacks}

-- `socket_open` is `socket_fd_ != -1`, and `sent` holds the packets that were handed to the socket.
pub record Client : Type 0 where
  pub socket_open : Bool
  pub sent : List (List ℕ)
  pub callbacks : Callbacks

unfoldable pub send_packet : List ℕ → Client → Client
send_packet packet client =
    if client.socket_open then record client { sent = client.sent ++ packet ∷ [] } else client

-- The last argument but one says whether the callback that is passed is a function.
unfoldable pub login : List ℕ → List ℕ → Bool → Client → Client
unfolding send_packet
login username password callback client =
    send_packet (encode_login_request username password)
      (record client { callbacks = record client.callbacks { login_callback = callback } })

unfoldable pub send_message : ℤ → List ℕ → Client → Client
unfolding send_packet
send_message to_id content client = send_packet (encode_message_request to_id content) client

unfoldable pub get_friend_list : Bool → Client → Client
unfolding send_packet
get_friend_list callback client =
    send_packet encode_friend_list_request
      (record client { callbacks = record client.callbacks { friend_list_callback = callback } })

unfoldable pub add_friend : ℤ → Client → Client
unfolding send_packet
add_friend friend_id client = send_packet (encode_add_friend_request friend_id) client

unfoldable pub register_user : List ℕ → List ℕ → List ℕ → List ℕ → Bool → Client → Client
unfolding send_packet
register_user username password security_question security_answer callback client =
    send_packet (encode_register_request username password security_question security_answer)
      (record client { callbacks = record client.callbacks { register_callback = callback } })

unfoldable pub get_security_question : List ℕ → Bool → Client → Client
unfolding send_packet
get_security_question username callback client =
    send_packet (encode_security_question_request username) (record client {
      callbacks = record client.callbacks { security_question_callback = callback };
    })

unfoldable pub reset_password : List ℕ → List ℕ → List ℕ → Bool → Client → Client
unfolding send_packet
reset_password username new_password security_answer callback client =
    send_packet (encode_reset_password_request username new_password security_answer)
      (record client { callbacks = record client.callbacks { reset_password_callback = callback } })

unfoldable pub check_version : ℤ → Bool → Client → Client
unfolding send_packet
check_version client_version callback client =
    send_packet (encode_version_check_request client_version)
      (record client { callbacks = record client.callbacks { version_check_callback = callback } })

unfoldable pub set_message_callback : Bool → Client → Client
set_message_callback callback client = record client {
  callbacks = record client.callbacks { message_callback = callback };
}
