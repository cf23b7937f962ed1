-- ===== src/Handlers/Dispatch.antt =====
-- The switch over the command of a packet (MessageHandler::handle_message,
-- server/src/message_handler.cpp), and the completion of a body (Connection::do_read_body,
-- server/src/connection_manager.cpp).
use qq_copy.Base.{ℕ, List, length, Option, none, some, leb, if◌then◌else◌}
use qq_copy.Base.Int.{ℤ}
use qq_copy.Outcome.{Outcome, ok, malformed, fault, ◌>>=◌}
use qq_copy.Wire.{byte_at, read_uint16, read_int32}
use mathlib.Core.Option
use qq_copy.Protocol.{Packet, CommandCode, command_code}
use qq_copy.Protocol.{
  login_req, message_req, friend_list_req, add_friend_req, register_req, security_question_req,
  reset_password_req, version_check_req,
}
use qq_copy.ServerCodec.{
  decode_login_request, decode_message_request, decode_register_request,
  decode_security_question_request, decode_reset_password_request, decode_version_check_request,
}
use qq_copy.Services.{Services}
use qq_copy.Server.{Server, get_user_id, do_read_header}
use qq_copy.Handlers.{handle_login, handle_chat_message, handle_friend_list, handle_add_friend}
use qq_copy.Handlers.Account.{
  handle_register, handle_security_question, handle_reset_password, handle_version_check,
}

-- The packet of a header buffer and a body.
unfoldable pub header_packet : List ℕ → List ℕ → Outcome Packet
header_packet header body = do
  version ← byte_at header 0
  command ← read_uint16 header 1
  ok (record { version = version; command = command_code command; payload = body })

module _ {S : Services} where
  -- `if (decode(packet.data, req)) handle(conn, req);` A read outside the payload is undefined
  -- behaviour, and has no next state: `none`.
  abbrev pub decoded :
      {A : Type 0} → Outcome A → (A → Server S → Server S) → Server S → Option (Server S)
  decoded (ok req) handle s = some (handle req s)
  decoded malformed handle s = some s
  decoded fault handle s = none

  unfoldable pub add_friend_payload : ℕ → List ℕ → Server S → Option (Server S)
  add_friend_payload h payload s =
      if leb 4 (length payload)
      then decoded (read_int32 payload 0)
          (λ friend_id.
            handle_add_friend h (record { user_id = get_user_id h s; friend_id = friend_id }))
          s
      else some s

  unfoldable pub dispatch : CommandCode → ℕ → List ℕ → ℤ → Server S → Option (Server S)
  dispatch login_req h payload now s = decoded (decode_login_request payload) (handle_login h) s
  dispatch message_req h payload now s =
      decoded (decode_message_request payload) (λ req. handle_chat_message h req now) s
  dispatch friend_list_req h payload now s = some (handle_friend_list h s)
  dispatch add_friend_req h payload now s = add_friend_payload h payload s
  dispatch register_req h payload now s =
      decoded (decode_register_request payload) (handle_register h) s
  dispatch security_question_req h payload now s =
      decoded (decode_security_question_request payload) (handle_security_question h) s
  dispatch reset_password_req h payload now s =
      decoded (decode_reset_password_request payload) (handle_reset_password h) s
  dispatch version_check_req h payload now s =
      decoded (decode_version_check_request payload) (handle_version_check h) s
  dispatch _ h payload now s = some s

  unfoldable pub handle_message : ℕ → Packet → ℤ → Server S → Option (Server S)
  unfolding dispatch
  handle_message h packet now s = dispatch packet.command h packet.payload now s

  -- The completion of a body in Connection::do_read_body: the packet of the header and the body is
  -- handled, and the next header is asked for.
  unfoldable pub read_body_done : ℕ → List ℕ → List ℕ → ℤ → Server S → Option (Server S)
  read_body_done h header body now s = elim (header_packet header body) [
    | ok packet ↦ Option.map (do_read_header h) (handle_message h packet now s)
    | malformed ↦ none
    | fault ↦ none
  ]
