-- ===== src/Handlers.antt =====
-- server/src/message_handler.cpp: what the server does with a packet of a connection. The log
-- lines are left out; the time in milliseconds, which the C++ code reads from the clock, is an
-- argument.
pub mod Account
pub mod Dispatch
pub mod Results
pub mod Refinement
pub mod Access
pub mod Guests
pub mod Relogin
use qq_copy.Base.{
  ℕ, ◌+◌, ◌-◌, ◌/◌, ◌%◌, List, [], ◌∷◌, map, Bool, true, false, none, some, ltb, if◌then◌else◌, not,
}
use qq_copy.Base.Int.{ℤ, pos, int_beq}
use mathlib.Core.Option
use qq_copy.Protocol.{
  CommandCode, ErrorCode, encode, protocol_version, LoginRequest, MessageRequest, AddFriendRequest,
}
use qq_copy.Protocol.{login_resp, message_resp, message_notify, friend_list_resp, add_friend_resp}
use qq_copy.Protocol.{
  success, user_not_found, user_already_online, protocol_error, database_error,
  friend_request_exists, cannot_add_self,
}
use qq_copy.ServerCodec.{
  encode_login_response, encode_message_response, encode_message_notify,
  encode_friend_list_response, encode_add_friend_response,
}
use qq_copy.Services.{Services, User}
use qq_copy.Server.{
  Server, get_id, get_user_id, set_user_id, is_user_online, set_user_connection, send, send_to_user,
}

-- `snprintf(buf, sizeof(buf), "%02x", hash[i])`: two lower-case digits.
unfoldable pub hex_digit : ℕ → ℕ
hex_digit d = if ltb d 10 then b'0' + d else b'a' + d - 10

unfoldable pub hex : List ℕ → List ℕ
unfolding hex_digit
hex [] = []
hex (x ∷ xs) = hex_digit (x / 16) ∷ hex_digit (x % 16) ∷ hex xs

abbrev pub is_empty : List ℕ → Bool
is_empty [] = true
is_empty (x ∷ xs) = false

unfoldable pub sha256 : (List ℕ → List ℕ) → List ℕ → List ℕ
unfolding hex
sha256 digest str = hex (digest str)

-- The packet that the receiver of a message gets.
unfoldable pub notify_packet : ℤ → List ℕ → ℤ → List ℕ
notify_packet from_id content now = encode (record {
  version = protocol_version;
  command = message_notify;
  payload =
      encode_message_notify (record { from_id = from_id; content = content; timestamp = now });
})

module _ {S : Services} where
  open S use {digest}

  unfoldable pub send_response : ℕ → CommandCode → List ℕ → Server S → Server S
  send_response h command payload s =
      send h (encode (record { version = protocol_version; command = command; payload = payload }))
        s

  unfoldable pub login_error : ℕ → ErrorCode → Server S → Server S
  unfolding send_response
  login_error h code s =
      send_response h login_resp
        (encode_login_response (record { error_code = code; user_id = pos 0; username = [] })) s

  -- The assignments of a login.
  unfoldable pub login_state : ℕ → ℤ → Server S → Server S
  login_state h user_id s =
      let s1 = set_user_id h user_id s in
      let s2 = set_user_connection user_id (get_id h s1) s1 in
      let s3 = record s2 { cache = S.set_online user_id true s2.cache } in
      record s3 { cache = S.set_connection_id user_id (get_id h s3) s3.cache }

  -- The part of handle_login behind a successful `verify_user`.
  unfoldable pub login_verified : ℕ → User → Server S → Server S
  login_verified h user s =
      if is_user_online user.user_id s
      then login_error h user_already_online s
      else send_response h login_resp
          (encode_login_response
            (record { error_code = success; user_id = user.user_id; username = user.username }))
          (login_state h user.user_id s)

  unfoldable pub handle_login : ℕ → LoginRequest → Server S → Server S
  handle_login h req s =
      let (found, db1) = S.verify_user req.username req.password s.db in
      let s1 = record s { db = db1 } in
      elim found [ none ↦ login_error h user_not_found s1 | some user ↦ login_verified h user s1 ]

  unfoldable pub message_response : ℕ → ErrorCode → ℤ → Server S → Server S
  unfolding send_response
  message_response h code msg_id s =
      send_response h message_resp
        (encode_message_response (record { error_code = code; msg_id = msg_id })) s

  -- The delivery of a stored message: at once, or as an unread count.
  unfoldable pub deliver : ℤ → MessageRequest → ℤ → Server S → Server S
  unfolding notify_packet
  deliver from_id req now s =
      if is_user_online req.to_id s
      then (send_to_user req.to_id (notify_packet from_id req.content now) s).0
      else record s { cache = S.increment_unread req.to_id s.cache }

  unfoldable pub handle_chat_message : ℕ → MessageRequest → ℤ → Server S → Server S
  handle_chat_message h req now s =
      let from_id = get_user_id h s in
      if int_beq from_id (pos 0)
      then message_response h protocol_error (pos 0) s
      else let (sent, db1) = S.send_message from_id req.to_id req.content s.db in
        let s1 = record s { db = db1 } in
        elim sent [
          | none ↦ message_response h database_error (pos 0) s1
          | some msg_id ↦ message_response h success msg_id (deliver from_id req now s1)
        ]

  unfoldable pub friend_list_response : ℕ → ErrorCode → List (ℤ × List ℕ) → Server S → Server S
  unfolding send_response
  friend_list_response h code friends s =
      send_response h friend_list_resp
        (encode_friend_list_response (record { error_code = code; friends = friends })) s

  unfoldable pub handle_friend_list : ℕ → Server S → Server S
  handle_friend_list h s =
      let user_id = get_user_id h s in
      if int_beq user_id (pos 0)
      then friend_list_response h protocol_error [] s
      else let (found, db1) = S.get_friends user_id s.db in
        let s1 = record s { db = db1 } in
        elim found [
          | none ↦ friend_list_response h database_error [] s1
          | some friends ↦
              friend_list_response h success (map (λ f. (f.friend_id, f.friend_name)) friends) s1
        ]

  unfoldable pub add_friend_response : ℕ → ErrorCode → Server S → Server S
  unfolding send_response
  add_friend_response h code s =
      send_response h add_friend_resp (encode_add_friend_response (record { error_code = code })) s

  -- The two rows, of which the second is written whatever becomes of it.
  unfoldable pub add_both : ℕ → AddFriendRequest → Server S → Server S
  add_both h req s =
      let (added, db1) = S.add_friend req.user_id req.friend_id s.db in
      if not added
      then add_friend_response h friend_request_exists (record s { db = db1 })
      else let (_, db2) = S.add_friend req.friend_id req.user_id db1 in
        add_friend_response h success (record s { db = db2 })

  unfoldable pub handle_add_friend : ℕ → AddFriendRequest → Server S → Server S
  handle_add_friend h req s =
      let user_id = get_user_id h s in
      if int_beq user_id (pos 0)
      then add_friend_response h protocol_error s
      else if int_beq req.user_id req.friend_id
      then add_friend_response h cannot_add_self s
      else let (found, db1) = S.get_user_by_id req.friend_id s.db in
        let s1 = record s { db = db1 } in
        elim found [ none ↦ add_friend_response h user_not_found s1 | some _ ↦ add_both h req s1 ]
