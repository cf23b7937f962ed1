-- ===== src/Examples/Talking.antt =====
-- Runs of the theorems on the client, and on client and server together.
use qq_copy.Base.{
  ℕ, ◌^◌, ◌≡◌, ◌≢◌, refl, List, [], ◌∷◌, ◌++◌, All, true, false, none, some, arith, nat_eq, text_eq,
  nat_beq, text_beq,
}
use qq_copy.Base.Int.{pos, int_eq, int_beq, IsSigned}
use qq_copy.Base.Assoc.{lookup}
use qq_copy.Outcome.{ok}
use qq_copy.Wire.{
  IsBytes, byte_at, read_uint16, read_counted, read_string, write_uint16, write_uint32,
}
use qq_copy.Protocol
use qq_copy.Protocol.{
  Packet, encode, login_req, login_resp, message_resp, message_notify, success, error_value,
}
use qq_copy.Protocol.Packets.{IsPacket}
use qq_copy.ServerCodec.{encode_message_response, decode_login_request}
use qq_copy.ClientCodec.{encode_message_request}
use qq_copy.Server.{
  Server, Connection, get_id, get_user_id, is_user_online, send_to_user, do_accept,
}
use qq_copy.Handlers.Dispatch.{dispatch}
use qq_copy.Services.{User}
use qq_copy.Handlers.Access.{response_entry}
use qq_copy.Handlers.Relogin.{second_login_confuses_users}
use qq_copy.ChatClient.{Callbacks, login_call, message_call, handle_packet, receive, receive_all}
use qq_copy.ChatClient.Reassembly.{concat, next_packet-short}
use qq_copy.ChatClient.Stream.{chunking_is_irrelevant, encoded, server_packets_are_received}
use qq_copy.ChatClient.Session.{Client, login}
use qq_copy.Events.{StartedReach, here, next, step, accepts, initial}
use qq_copy.Events.EndToEnd.{request_read, message_reaches_receiver}
use qq_copy.Events.Login.{login_reaches_callback}
use qq_copy.Events.Registry.Steps.{reachable_server_is_sound}
use qq_copy.Events.Writes.{WritesFront}
use qq_copy.Server.{manager_stop}
use qq_copy.Examples.{
  are_bytes-IsBytes, anna, pw, login_payload, user_anna, demo, fresh_connection, guest_server,
  anna_server,
}

abbrev all_callbacks : Callbacks
all_callbacks = record {
  login_callback = true;
  message_callback = true;
  friend_list_callback = true;
  register_callback = true;
  security_question_callback = true;
  reset_password_callback = true;
  version_check_callback = true;
}

-- A packet in two pieces, the second with the first byte of one more.
abbrev first_piece : List ℕ
first_piece = 1 ∷ 0 ∷ []

abbrev second_piece : List ℕ
second_piece = 15 ∷ 0 ∷ 0 ∷ 0 ∷ 2 ∷ 0 ∷ 0 ∷ 1 ∷ []

pieces-IsBytes : All IsBytes (first_piece ∷ second_piece ∷ [])
pieces-IsBytes = (are_bytes-IsBytes first_piece refl, (are_bytes-IsBytes second_piece refl, tt))

chunking_is_irrelevant_example :
    (receive_all [] (first_piece ∷ second_piece ∷ [])
      ≡ receive [] (concat (first_piece ∷ second_piece ∷ [])))
    × ((frames : List (List ℕ)) × (left : List ℕ) × (receive_all []
            (first_piece ∷ second_piece ∷ [])
          ≡ ok (frames, left))
        × (concat (first_piece ∷ second_piece ∷ []) ≡ concat frames ++ left))
chunking_is_irrelevant_example =
    chunking_is_irrelevant (first_piece ∷ second_piece ∷ []) pieces-IsBytes

-- The response to a password reset: success.
abbrev reset_packet : Packet
reset_packet = record { version = 1; command = Protocol.reset_password_resp; payload = 0 ∷ 0 ∷ [] }

reset_packet-IsPacket : IsPacket reset_packet
reset_packet-IsPacket = record {
  version_fits = omega arith;
  command_fits = tt;
  payload_fits = omega arith;
}

pieces_concat :
    concat (first_piece ∷ second_piece ∷ []) ≡ concat (encoded (reset_packet ∷ [])) ++ 1 ∷ []
unfolding encode Protocol.command_value write_uint16 write_uint32
pieces_concat = refl

server_packets_are_received_example :
    receive_all [] (first_piece ∷ second_piece ∷ []) ≡ ok (encoded (reset_packet ∷ []), 1 ∷ [])
server_packets_are_received_example =
    server_packets_are_received (first_piece ∷ second_piece ∷ []) (reset_packet ∷ []) (1 ∷ [])
      pieces-IsBytes (reset_packet-IsPacket, tt) (next_packet-short (1 ∷ []) refl) pieces_concat

reset_packet-IsBytes : IsBytes (encode reset_packet)
unfolding encode Protocol.command_value write_uint16 write_uint32
reset_packet-IsBytes = are_bytes-IsBytes (encode reset_packet) refl

anna_user : get_user_id 1 anna_server ≡ pos 7
unfolding get_user_id lookup nat_beq
anna_user = refl

anna_fits : IsSigned (2 ^ 31) (get_user_id 1 anna_server)
anna_fits = rw anna_user (omega arith)

anna_logged_in : get_user_id 1 anna_server ≢ pos 0
anna_logged_in = λ e. cc (anna_user, e)

receiver_online : lookup (pos 8) anna_server.user_to_conn ≡ some (b'y' ∷ [])
unfolding lookup int_beq
receiver_online = refl

receiver_registered : lookup (b'y' ∷ []) anna_server.connections ≡ some 2
unfolding lookup text_beq
receiver_registered = refl

message_reaches_receiver_example :
    (t : Server demo) × (bytes : List ℕ) × (request_read 1
        (encode_message_request (pos 8) pw)
        (pos 5)
        anna_server
      ≡ some t)
    × (t.posted
        ≡ anna_server.posted
          ++ ((2, bytes)
              ∷ response_entry 1 message_resp
                  (encode_message_response (record { error_code = success; msg_id = pos 3 }))
              ∷ []))
    × (handle_packet all_callbacks bytes
        ≡ ok (message_call (get_user_id 1 anna_server) pw (pos 5) ∷ []))
message_reaches_receiver_example =
    message_reaches_receiver 1 (pos 8) pw (pos 5) anna_server (b'y' ∷ []) 2 (pos 3) all_callbacks
      (omega arith) anna_fits (omega arith) (omega arith) anna_logged_in refl receiver_online
      receiver_registered

abbrev open_client : Client
open_client = record { socket_open = true; sent = []; callbacks = all_callbacks }

anna_offline : is_user_online (pos 7) guest_server ≡ false
unfolding is_user_online lookup int_beq
anna_offline = refl

anna_verified : (demo.verify_user anna pw guest_server.db).0 ≡ some user_anna
unfolding text_beq
anna_verified = refl

login_reaches_callback_example :
    (request reply : List ℕ) × (t : Server demo) × ((login anna pw true open_client).sent
      ≡ open_client.sent ++ request ∷ [])
    × (request_read 1 request (pos 5) guest_server ≡ some t)
    × (t.posted ≡ guest_server.posted ++ (1, reply) ∷ [])
    × (handle_packet (login anna pw true open_client).callbacks reply
        ≡ ok (login_call (error_value success) (pos 7) anna ∷ []))
login_reaches_callback_example =
    login_reaches_callback open_client anna pw 1 (pos 5) guest_server user_anna refl (omega arith)
      (omega arith) anna_verified anna_offline (omega arith) (omega arith)

guest_object : lookup 1 guest_server.objects ≡ some fresh_connection
unfolding lookup nat_beq
guest_object = refl

guest_registered : lookup (get_id 1 guest_server) guest_server.connections ≡ some 1
unfolding get_id lookup nat_beq text_beq
guest_registered = refl

one_accepted :
    StartedReach (initial {S = demo} 3 0) (do_accept 1 (b'x' ∷ []) (initial {S = demo} 3 0))
unfolding initial lookup
one_accepted = next here (step (accepts 1 (b'x' ∷ []) refl))

reachable_server_is_sound_example :
    ((h : ℕ) (conn : Connection)
      → lookup h (do_accept 1 (b'x' ∷ []) (initial {S = demo} 3 0)).objects ≡ some conn
      → WritesFront conn)
    × ((id : List ℕ) (h : ℕ)
        → lookup id (do_accept 1 (b'x' ∷ []) (initial {S = demo} 3 0)).connections ≡ some h
        → (conn : Connection) × (lookup h (do_accept 1 (b'x' ∷ []) (initial {S = demo} 3 0)).objects
            ≡ some conn)
          × (conn.conn_id ≡ id))
reachable_server_is_sound_example = reachable_server_is_sound {S = demo} 3 0 one_accepted

abbrev second_payload : List ℕ
second_payload = 0 ∷ 2 ∷ (pw ++ 0 ∷ 2 ∷ pw)

abbrev user_pw : User
user_pw = record user_anna { user_id = pos 9; username = pw }

first_decoded : decode_login_request login_payload ≡ ok (record { username = anna; password = pw })
unfolding decode_login_request read_counted read_uint16 read_string byte_at
first_decoded = refl

second_decoded : decode_login_request second_payload ≡ ok (record { username = pw; password = pw })
unfolding decode_login_request read_counted read_uint16 read_string byte_at
second_decoded = refl

pw_verified : (demo.verify_user pw pw guest_server.db).0 ≡ some user_pw
unfolding text_beq
pw_verified = refl

pw_offline : is_user_online (pos 9) guest_server ≡ false
unfolding is_user_online lookup int_beq
pw_offline = refl

second_login_confuses_users_example :
    (s1 : Server demo) × (s2 : Server demo) × (dispatch login_req 1 login_payload
        (pos 5)
        guest_server
      ≡ some s1)
    × (dispatch login_req 1 second_payload (pos 6) s1 ≡ some s2)
    × (get_user_id 1 s2 ≡ pos 9)
    × (send_to_user (pos 7) pw s2 ≡ (record s2 { posted = s2.posted ++ (1, pw) ∷ [] }, true))
    × (is_user_online (pos 9) (manager_stop 1 s2) ≡ false)
    × (lookup (pos 7) (manager_stop 1 s2).user_to_conn ≡ some (get_id 1 guest_server))
    × (lookup (get_id 1 guest_server) (manager_stop 1 s2).connections ≡ none)
second_login_confuses_users_example =
    second_login_confuses_users 1 guest_server fresh_connection login_payload second_payload
      (record { username = anna; password = pw }) (record { username = pw; password = pw })
      user_anna user_pw (pos 5) (pos 6) pw guest_object guest_registered first_decoded
      second_decoded anna_verified pw_verified anna_offline pw_offline (λ e. cc e) (λ e. cc e)
