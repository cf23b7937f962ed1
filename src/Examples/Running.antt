-- ===== src/Examples/Running.antt =====
-- Runs of the server's theorems.
use qq_copy.Base.{
  ℕ, ◌<◌, ◌≤◌, ◌^◌, length, ◌≡◌, ◌≢◌, ◌⊎◌, refl, List, [], ◌∷◌, ◌++◌, length, false, none, some,
  arith, nat_eq, text_eq, nat_beq,
}
use qq_copy.Base.Int.{ℤ, pos, int_eq}
use qq_copy.Base.Assoc.{lookup}
use qq_copy.Wire.{byte_at, read_uint16, read_counted, read_string}
use qq_copy.Protocol.{LoginRequest, ResetPasswordRequest, login_req, friend_list_req}
use qq_copy.ServerCodec.{decode_login_request}
use qq_copy.Server.{
  Server, Connection, not_reading, get_user_id, do_accept, is_user_online, append_write,
  finish_write,
}
use qq_copy.Handlers.{handle_login, handle_friend_list, sha256, hex, hex_digit}
use qq_copy.Handlers.Account.{handle_reset_password}
use qq_copy.Handlers.Dispatch.{dispatch}
use qq_copy.Handlers.Results.{Result}
use qq_copy.Handlers.Refinement.{response_to, dispatch-Result}
use qq_copy.Handlers.Access.{KeepsEntry, dispatch-KeepsEntry, Responds, dispatch-Responds}
use qq_copy.Handlers.Guests.{
  PostsOnly, lists_friends, dispatch_guest, handle_reset_password_wrong_answer,
}
use qq_copy.Events.{Reach, here, next, accepts, initial}
use qq_copy.Events.Framing.{HandlesPacket, Unregisters, packet_is_read_or_refused}
use qq_copy.Events.NeverReads.{server_never_reads}
use qq_copy.Events.Writes.{WritesFront, sent_order, write_queue_keeps_order}
use qq_copy.Examples.{anna, pw, login_payload, login_packet, demo, fresh_connection, guest_server}

guest_object : lookup 1 guest_server.objects ≡ some fresh_connection
unfolding lookup nat_beq
guest_object = refl

packet_is_read_or_refused_example :
    ((0 < length login_packet.payload)
      × (length login_packet.payload < 2 ^ 20)
      × HandlesPacket login_packet 1 guest_server fresh_connection)
    ⊎ (((length login_packet.payload ≡ 0) ⊎ (2 ^ 20 ≤ length login_packet.payload))
        × Unregisters login_packet 1 guest_server)
packet_is_read_or_refused_example =
    packet_is_read_or_refused login_packet 1 guest_server fresh_connection
      (record { version_fits = omega arith; command_fits = tt; payload_fits = omega arith })
      guest_object

abbrev login_request : LoginRequest
login_request = record { username = anna; password = pw }

login_dispatched :
    dispatch login_req 1 login_payload (pos 5) guest_server
    ≡ some (handle_login 1 login_request guest_server)
unfolding dispatch decode_login_request read_counted read_uint16 read_string byte_at
login_dispatched = refl

dispatch-Result_example :
    (handle_login 1 login_request guest_server ≡ guest_server)
    ⊎ Result 1
        (pos 5)
        guest_server
        (response_to login_req)
        (handle_login 1 login_request guest_server)
dispatch-Result_example =
    dispatch-Result login_req 1 login_payload (pos 5) guest_server login_dispatched

dispatch-KeepsEntry_example :
    KeepsEntry 1 (pos 7) guest_server (handle_login 1 login_request guest_server)
dispatch-KeepsEntry_example =
    dispatch-KeepsEntry login_req 1 login_payload (pos 5) guest_server (pos 7) login_dispatched

dispatch-Responds_example :
    (handle_login 1 login_request guest_server ≡ guest_server)
    ⊎ Responds 1
        (pos 5)
        (response_to login_req)
        guest_server
        (handle_login 1 login_request guest_server)
dispatch-Responds_example =
    dispatch-Responds login_req 1 login_payload (pos 5) guest_server login_dispatched

guest_user : get_user_id 1 guest_server ≡ pos 0
unfolding get_user_id lookup nat_beq
guest_user = refl

friends_dispatched :
    dispatch friend_list_req 1 [] (pos 5) guest_server ≡ some (handle_friend_list 1 guest_server)
unfolding dispatch
friends_dispatched = refl

dispatch_guest_example :
    (handle_friend_list 1 guest_server ≡ guest_server)
    ⊎ PostsOnly 1 guest_server (handle_friend_list 1 guest_server)
dispatch_guest_example =
    dispatch_guest 1 [] (pos 5) guest_server lists_friends guest_user friends_dispatched

abbrev reset_request : ResetPasswordRequest
reset_request = record { username = anna; new_password = pw; security_answer = pw }

wrong_hash : sha256 demo.digest reset_request.security_answer ≢ []
unfolding sha256 hex hex_digit
wrong_hash = λ e. cc e

handle_reset_password_wrong_answer_example :
    ((handle_reset_password 1 reset_request guest_server).db ≡ guest_server.db)
    ⊎ ((handle_reset_password 1 reset_request guest_server).db
        ≡ (demo.get_security_question reset_request.username guest_server.db).1)
handle_reset_password_wrong_answer_example =
    handle_reset_password_wrong_answer 1 reset_request guest_server pw [] refl wrong_hash

abbrev empty_server : Server demo
empty_server = record {
  objects = [];
  connections = [];
  user_to_conn = [];
  posted = [];
  db = 3;
  cache = 0;
}

one_accepted : Reach (initial {S = demo} 3 0) (do_accept 1 (b'x' ∷ []) (initial {S = demo} 3 0))
unfolding initial lookup
one_accepted = next here (accepts 1 (b'x' ∷ []) refl)

server_never_reads_example :
    ((h : ℕ) (conn : Connection)
      → lookup h (do_accept 1 (b'x' ∷ []) (initial {S = demo} 3 0)).objects ≡ some conn
      → (conn.reading ≡ not_reading) × (conn.in_flight ≡ none))
    × ((u : ℤ) → is_user_online u (do_accept 1 (b'x' ∷ []) (initial {S = demo} 3 0)) ≡ false)
    × ((do_accept 1 (b'x' ∷ []) (initial {S = demo} 3 0)).db ≡ 3)
    × ((do_accept 1 (b'x' ∷ []) (initial {S = demo} 3 0)).cache ≡ 0)
server_never_reads_example = server_never_reads {S = demo} 3 0 one_accepted

abbrev writing_connection : Connection
writing_connection = record fresh_connection { write_buffer = pw ∷ anna ∷ []; in_flight = some pw }

writing_front : WritesFront writing_connection
writing_front bytes e = (anna ∷ [], cc e)

write_queue_keeps_order_example :
    ((bytes : List ℕ)
      → WritesFront (append_write bytes writing_connection)
        × (sent_order (append_write bytes writing_connection)
            ≡ sent_order writing_connection ++ bytes ∷ []))
    × ((bytes : List ℕ)
        → writing_connection.in_flight ≡ some bytes
        → WritesFront (finish_write bytes writing_connection)
          × (sent_order (finish_write bytes writing_connection) ≡ sent_order writing_connection)
          × ((finish_write bytes writing_connection).socket_out
              ≡ writing_connection.socket_out ++ bytes ∷ []))
write_queue_keeps_order_example = write_queue_keeps_order writing_connection writing_front
