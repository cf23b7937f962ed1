-- ===== src/Events/EndToEnd.antt =====
-- A request from the client's encoder through the server's connection and handler, and the
-- notification that it leads to back to a client's callback.
use mathlib.Core.Option
use qq_copy.Base.{
  ℕ, ◌+◌, ◌%◌, ◌^◌, ◌<◌, ◌≡◌, ◌≢◌, ap, ◌∙◌, List, [], ◌∷◌, ◌++◌, length, take, drop, Option, some,
  arith, if◌then◌else◌, append_assoc, text_eq, nat_eq, length-append,
}
use qq_copy.Base.Int.{ℤ, pos, IsSigned, int_eq}
use qq_copy.Base.Assoc.{lookup}
use qq_copy.Outcome.{ok}
use qq_copy.Wire.{write_uint32, write_int32, write_string}
use qq_copy.Protocol.{
  Packet, CommandCode, MessageRequest, login_req, message_req, message_resp, header_size, success,
}
use qq_copy.Protocol.Packets.{IsPacket, IsCommand}
use qq_copy.ServerCodec.{encode_message_response}
use qq_copy.ClientCodec
use qq_copy.ClientCodec.{encode_login_request, encode_message_request}
use qq_copy.RoundTrip.{encode-eq, write_string-append, write_uint32-append, length-write_string}
use qq_copy.RoundTrip.Requests.{login_fields}
use qq_copy.RoundTrip.Messages.{message_fields}
use qq_copy.Services.{Services}
use qq_copy.Server.{Server, do_read_header, get_user_id}
use qq_copy.Server.Objects.{update-frame}
use qq_copy.Handlers.{handle_login, handle_chat_message, notify_packet}
use qq_copy.Handlers.Dispatch.{handle_message, dispatch, read_body_done}
use qq_copy.Handlers.Access.{response_entry}
use qq_copy.Handlers.Guests.{handle_chat_message_online}
use qq_copy.Events.Framing.{packet_of_parts}
use qq_copy.ChatClient.{Callbacks, message_call, handle_packet}
use qq_copy.ChatClient.Answers.{notification_is_called}

-- The header and the body of a request of the client, completed on a connection.
abbrev pub request_read : {S : Services} → ℕ → List ℕ → ℤ → Server S → Option (Server S)
request_read h bytes now s =
    read_body_done h (take header_size bytes) (drop header_size bytes) now s

request_read-encode :
    {S : Services} (h : ℕ) (command : CommandCode) (payload : List ℕ) (now : ℤ) (s : Server S)
    → IsCommand command
    → length payload < 2 ^ 32
    → request_read h (ClientCodec.encode command payload) now s
      ≡ Option.map (do_read_header h) (dispatch command h payload now s)
unfolding read_body_done handle_message
request_read-encode h command payload now s known small =
    let p : Packet = record { version = 1; command = command; payload = payload } in
    let fits : IsPacket p = record {
      version_fits = omega arith;
      command_fits = known;
      payload_fits = small;
    } in
    ap (λ bytes. request_read h bytes now s) (encode-eq command payload)
    ∙ rw (packet_of_parts p fits, read_body_done)

-- A login request of the client, with strings of fewer than 2 ^ 16 bytes, makes the server handle
-- exactly this login when its header and body have come, and ask for the next header.
pub login_request_is_handled :
    {S : Services} (h : ℕ) (u p : List ℕ) (now : ℤ) (s : Server S)
    → length u < 2 ^ 16
    → length p < 2 ^ 16
    → request_read h (encode_login_request u p) now s
      ≡ some (do_read_header h (handle_login h (record { username = u; password = p }) s))
unfolding encode_login_request dispatch
login_request_is_handled h u p now s u_fits p_fits =
    let e = write_string-append (write_string [] u) p in
    request_read-encode h login_req _ now s tt (
      omega (
        arith,
        ap length e,
        length-append (write_string [] u) (write_string [] p),
        length-write_string u,
        length-write_string p,
      ))
    ∙ rw (login_fields u p u_fits p_fits _ e)

length-message :
    (to_id : ℤ) (content : List ℕ)
    → length (write_uint32 (write_int32 [] to_id) (length content % 2 ^ 32) ++ content)
      ≡ 8 + length content
unfolding write_uint32 write_int32
length-message to_id content = omega arith

message_request_is_handled :
    {S : Services} (h : ℕ) (to_id : ℤ) (content : List ℕ) (now : ℤ) (s : Server S)
    → IsSigned (2 ^ 31) to_id
    → 8 + length content < 2 ^ 32
    → request_read h (encode_message_request to_id content) now s
      ≡ some (
          do_read_header h
            (handle_chat_message h (record { to_id = to_id; content = content }) now s))
unfolding encode_message_request dispatch
message_request_is_handled h to_id content now s id_fits small =
    let e =
      ap (λ b. b ++ content) (write_uint32-append (write_int32 [] to_id) (length content % 2 ^ 32))
      ∙ append_assoc (write_int32 [] to_id) (write_uint32 [] (length content % 2 ^ 32)) content in
    request_read-encode h message_req _ now s tt (omega (arith, length-message to_id content))
    ∙ rw (message_fields to_id content id_fits _ small e)

notify_packet_is_called :
    (set : Callbacks) (from_id : ℤ) (content : List ℕ) (now : ℤ)
    → IsSigned (2 ^ 31) from_id
    → IsSigned (2 ^ 63) now
    → length content + 16 < 2 ^ 32
    → handle_packet set (notify_packet from_id content now)
      ≡ ok (if set.message_callback then message_call from_id content now ∷ [] else [])
unfolding notify_packet
notify_packet_is_called set from_id content now id_fits time_fits small =
    notification_is_called set from_id content now id_fits time_fits small

pub do_read_header-posted :
    {S : Services} (h : ℕ) (s : Server S) → (do_read_header h s).posted ≡ s.posted
unfolding do_read_header
do_read_header-posted h s = (update-frame h _ s).2

-- A message from client to client: a logged-in connection sends the message request of the client's
-- encoder, its content shorter than the server's limit of a body, to a user who is online on a
-- registered connection, and the database stores it; the users' numbers are ints, and the time has
-- 64 bits. Then the server goes on, and it posts to the receiver's connection a packet for which the
-- receiving client calls its message callback, if set, with the sender, the content and the time;
-- and then the sender's response.
pub message_reaches_receiver :
    {S : Services} (h : ℕ) (to_id : ℤ) (content : List ℕ) (now : ℤ) (s : Server S) (id : List ℕ)
    (receiver : ℕ) (msg_id : ℤ) (set : Callbacks)
    → IsSigned (2 ^ 31) to_id
    → IsSigned (2 ^ 31) (get_user_id h s)
    → IsSigned (2 ^ 63) now
    → 8 + length content < 2 ^ 20
    → get_user_id h s ≢ pos 0
    → (S.send_message (get_user_id h s) to_id content s.db).0 ≡ some msg_id
    → lookup to_id s.user_to_conn ≡ some id
    → lookup id s.connections ≡ some receiver
    → (t : Server S) × (bytes : List ℕ) × (request_read h
          (encode_message_request to_id content)
          now
          s
        ≡ some t)
      × (t.posted
          ≡ s.posted
            ++ ((receiver, bytes)
                ∷ response_entry h message_resp
                    (encode_message_response (record { error_code = success; msg_id = msg_id }))
                ∷ []))
      × (handle_packet set bytes
          ≡ ok (
              if set.message_callback then message_call (get_user_id h s) content now ∷ [] else []))
message_reaches_receiver h to_id content now s id receiver msg_id set to_fits from_fits time_fits
      small user stored online registered =
    let req : MessageRequest = record { to_id = to_id; content = content } in
    (
      do_read_header h (handle_chat_message h req now s),
      notify_packet (get_user_id h s) content now,
      message_request_is_handled h to_id content now s to_fits (omega arith),
      do_read_header-posted h (handle_chat_message h req now s)
          ∙ handle_chat_message_online h req now s id receiver msg_id user stored online registered,
      notify_packet_is_called set (get_user_id h s) content now from_fits time_fits (omega arith),
    )
