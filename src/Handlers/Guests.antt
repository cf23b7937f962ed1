-- ===== src/Handlers/Guests.antt =====
-- Requests that need a login, and requests that need an answer.
use qq_copy.Base.{
  ℕ, ◌≡◌, ◌≢◌, refl, sym, ap, ◌⊎◌, inl, inr, List, [], ◌∷◌, ◌++◌, length, true, false, some, leb,
  arith, Bool-cases, some-eq, text_beq, beq-ne, append_assoc, ◌||◌, text_eq, nat_eq,
}
use qq_copy.Base.Int.{ℤ, pos, int_beq, int_beq_iff, int_eq}
use qq_copy.Base.Assoc.{lookup}
use qq_copy.Outcome.{Outcome, ok, malformed, fault}
use qq_copy.Wire.{read_int32}
use qq_copy.Protocol.{
  CommandCode, MessageRequest, AddFriendRequest, ResetPasswordRequest, success, message_resp,
}
use qq_copy.Protocol.{message_req, friend_list_req, add_friend_req}
use qq_copy.ServerCodec.{decode_message_request, encode_message_response}
use qq_copy.Services.{Services}
use qq_copy.Server.{Server, get_user_id, is_user_online, send, send_to_user}
use qq_copy.Handlers.{
  handle_chat_message, handle_friend_list, handle_add_friend, message_response,
  friend_list_response, add_friend_response, send_response, deliver, notify_packet, is_empty,
  sha256,
}
use qq_copy.Handlers.Account.{handle_reset_password, reset_answered, reset_password_response}
use qq_copy.Handlers.Dispatch.{dispatch, decoded, add_friend_payload}
use qq_copy.Handlers.Access.{response_entry}

-- The state, with one more send posted.
abbrev pub PostsOnly : {S : Services} → ℕ → Server S → Server S → Type 0
PostsOnly h s t = (bytes : List ℕ) × (t ≡ record s { posted = s.posted ++ (h, bytes) ∷ [] })

module _ {S : Services} (h : ℕ) (now : ℤ) (s : Server S) (guest : get_user_id h s ≡ pos 0) where
  is_guest : int_beq (get_user_id h s) (pos 0) ≡ true
  is_guest = (int_beq_iff (get_user_id h s) (pos 0)).1 guest

  message_guest : (req : MessageRequest) → PostsOnly h s (handle_chat_message h req now s)
  unfolding handle_chat_message message_response send_response send
  message_guest req = rw (is_guest, handle_chat_message) (_, refl)

  friends_guest : PostsOnly h s (handle_friend_list h s)
  unfolding handle_friend_list friend_list_response send_response send
  friends_guest = rw (is_guest, handle_friend_list) (_, refl)

  add_friend_guest : (req : AddFriendRequest) → PostsOnly h s (handle_add_friend h req s)
  unfolding handle_add_friend add_friend_response send_response send
  add_friend_guest req = rw (is_guest, handle_add_friend) (_, refl)

  decoded_guest :
      {A : Type 0} (request : Outcome A) (handle : A → Server S → Server S)
      → ((req : A) → PostsOnly h s (handle req s))
      → {t : Server S} → decoded request handle s ≡ some t
      → (t ≡ s) ⊎ PostsOnly h s t
  decoded_guest (ok req) handle k e = inr (rw (some-eq e) at (k req))
  decoded_guest malformed handle k e = inl (sym (some-eq e))
  decoded_guest fault handle k e = cc

  payload_guest :
      (payload : List ℕ) {t : Server S}
      → add_friend_payload h payload s ≡ some t
      → (t ≡ s) ⊎ PostsOnly h s t
  unfolding add_friend_payload
  payload_guest payload e = elim (Bool-cases (leb 4 (length payload))) [
    | inl long ↦
        decoded_guest (read_int32 payload 0) _ (λ id. add_friend_guest _)
          (rw (long, add_friend_payload) at e)
    | inr short ↦ inl (sym (some-eq (rw (short, add_friend_payload) at e)))
  ]

-- The three commands of a user who is logged in.
pub data NeedsLogin : CommandCode → Type 0 where
  messages : NeedsLogin message_req
  lists_friends : NeedsLogin friend_list_req
  adds_friend : NeedsLogin add_friend_req

-- On a connection without a login, a packet of a command that needs one reaches neither the
-- database nor the cache, the registry or another connection, whatever its payload: at most one
-- response to the connection itself is posted.
pub dispatch_guest :
    {S : Services} (h : ℕ) (payload : List ℕ) (now : ℤ) (s : Server S) {c : CommandCode}
    {t : Server S}
    → NeedsLogin c
    → get_user_id h s ≡ pos 0
    → dispatch c h payload now s ≡ some t
    → (t ≡ s) ⊎ PostsOnly h s t
unfolding dispatch
dispatch_guest h payload now s messages guest e =
    decoded_guest h now s guest (decode_message_request payload) _ (message_guest h now s guest) e
dispatch_guest h payload now s lists_friends guest e =
    inr (rw (some-eq e) at (friends_guest h now s guest))
dispatch_guest h payload now s adds_friend guest e = payload_guest h now s guest payload e

-- With an answer whose hash is not the stored one, a password reset leaves the database as it was
-- or as the look-up of the question left it.
pub handle_reset_password_wrong_answer :
    {S : Services} (h : ℕ) (req : ResetPasswordRequest) (s : Server S) (question stored : List ℕ)
    → (S.get_security_question req.username s.db).0 ≡ some (question, stored)
    → sha256 S.digest req.security_answer ≢ stored
    → ((handle_reset_password h req s).db ≡ s.db)
      ⊎ ((handle_reset_password h req s).db ≡ (S.get_security_question req.username s.db).1)
unfolding handle_reset_password reset_answered reset_password_response send_response send
handle_reset_password_wrong_answer {S} h req s question stored found wrong =
    let differ : text_beq (sha256 S.digest req.security_answer) stored ≡ false =
      beq-ne (sha256 S.digest req.security_answer) stored wrong in
    elim (Bool-cases
      (is_empty req.username || is_empty req.new_password || is_empty req.security_answer)) [
        | inl empty ↦ rw (empty, handle_reset_password) (inl refl)
        | inr filled ↦
            rw (filled, handle_reset_password)
              (rw (found, handle_reset_password) (rw (differ, reset_answered) (inr refl)))
      ]

online_true :
    {S : Services} (u : ℤ) (s : Server S) {id : List ℕ}
    → lookup u s.user_to_conn ≡ some id
    → is_user_online u s ≡ true
unfolding is_user_online
online_true u s e = ground arith

pub send_to_user_registered :
    {S : Services} (u : ℤ) (bytes : List ℕ) (s : Server S) {id : List ℕ} {receiver : ℕ}
    → lookup u s.user_to_conn ≡ some id
    → lookup id s.connections ≡ some receiver
    → send_to_user u bytes s ≡ (record s { posted = s.posted ++ (receiver, bytes) ∷ [] }, true)
unfolding send_to_user send
send_to_user_registered u bytes s e f = rw (e, send_to_user) (rw (f, send_to_user))

deliver_online :
    {S : Services} (from_id : ℤ) (req : MessageRequest) (now : ℤ) (s : Server S) (id : List ℕ)
    (receiver : ℕ)
    → lookup req.to_id s.user_to_conn ≡ some id
    → lookup id s.connections ≡ some receiver
    → deliver from_id req now s
      ≡ record s { posted = s.posted ++ (receiver, notify_packet from_id req.content now) ∷ [] }
unfolding deliver
deliver_online from_id req now s id receiver online registered =
    rw (online_true req.to_id s online) (
      ap (λ r. r.0)
        (send_to_user_registered req.to_id (notify_packet from_id req.content now) s online
          registered))

-- A message from a user who is logged in to one who is online on a registered connection, stored
-- by the database: the receiver's connection is sent the notification, and then the sender's the
-- success response with the message's number.
pub handle_chat_message_online :
    {S : Services} (h : ℕ) (req : MessageRequest) (now : ℤ) (s : Server S) (id : List ℕ)
    (receiver : ℕ) (msg_id : ℤ)
    → get_user_id h s ≢ pos 0
    → (S.send_message (get_user_id h s) req.to_id req.content s.db).0 ≡ some msg_id
    → lookup req.to_id s.user_to_conn ≡ some id
    → lookup id s.connections ≡ some receiver
    → (handle_chat_message h req now s).posted
      ≡ s.posted
        ++ ((receiver, notify_packet (get_user_id h s) req.content now)
            ∷ response_entry h message_resp
                (encode_message_response (record { error_code = success; msg_id = msg_id }))
            ∷ [])
unfolding handle_chat_message message_response send_response send
handle_chat_message_online {S} h req now s id receiver msg_id user stored online registered =
    let member : int_beq (get_user_id h s) (pos 0) ≡ false =
      beq-ne (get_user_id h s) (pos 0) user in
    rw (member, handle_chat_message)
      (rw (stored, handle_chat_message)
        (rw
          (deliver_online (get_user_id h s) req now
            (record s { db = (S.send_message (get_user_id h s) req.to_id req.content s.db).1 }) id
            receiver online registered)
          (append_assoc s.posted _ _)))
