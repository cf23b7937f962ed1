-- ===== src/Handlers/Results.antt =====
-- What a handler may do, as an abstract specification: answer, log in, or pass a message on; and
-- that every handler does one of these.
use qq_copy.Base.{
  ℕ, ◌≡◌, refl, sym, ◌∙◌, ◌⊎◌, inl, inr, List, length, false, some, leb, ◌||◌, Bool-cases,
  Option-cases, some-eq, text_beq,
}
use qq_copy.Base.Int.{ℤ, pos, int_beq}
use qq_copy.Outcome.{Outcome, ok, malformed, fault}
use qq_copy.Wire.{read_int32}
use qq_copy.Protocol.{
  CommandCode, LoginRequest, MessageRequest, AddFriendRequest, RegisterRequest,
  SecurityQuestionRequest, ResetPasswordRequest, VersionCheckRequest,
}
use qq_copy.Protocol.{
  login_resp, message_resp, friend_list_resp, add_friend_resp, register_resp,
  security_question_resp, reset_password_resp, version_check_resp,
}
use qq_copy.Services.{Services, User}
use qq_copy.Server.{Server, get_user_id, is_user_online}
use qq_copy.Handlers.{
  is_empty, sha256, send_response, login_error, login_state, login_verified, handle_login,
  message_response, deliver, handle_chat_message, friend_list_response, handle_friend_list,
  add_friend_response, add_both, handle_add_friend,
}
use qq_copy.Handlers.Account.{
  register_response, handle_register, security_question_response, handle_security_question,
  reset_password_response, reset_answered, handle_reset_password, handle_version_check,
}
use qq_copy.Handlers.Dispatch.{decoded, add_friend_payload}

module _ {S : Services} where
  -- The states that handling a request of a connection may lead to. The response is the last thing
  -- posted; only a login changes the registry, and only for a user who is not online; only a
  -- message of a user who is logged in, stored by the database, is passed on.
  pub data Result (h : ℕ) (now : ℤ) (s : Server S) : CommandCode → Server S → Type 0 where
    answered :
        (command : CommandCode) (payload : List ℕ) (db : S.Db)
        → Result h now s command (send_response h command payload (record s { db = db }))
    logged_in :
        (user : User) (req : LoginRequest) (payload : List ℕ)
        → (S.verify_user req.username req.password s.db).0 ≡ some user
        → is_user_online user.user_id s ≡ false
        → Result h now s login_resp (
            send_response h login_resp payload (
              login_state h user.user_id
                (record s { db = (S.verify_user req.username req.password s.db).1 })))
    passed_on :
        (req : MessageRequest) (payload : List ℕ) (msg_id : ℤ)
        → int_beq (get_user_id h s) (pos 0) ≡ false
        → (S.send_message (get_user_id h s) req.to_id req.content s.db).0 ≡ some msg_id
        → Result h now s message_resp (
            send_response h message_resp payload (
              deliver (get_user_id h s) req now (record s {
                db = (S.send_message (get_user_id h s) req.to_id req.content s.db).1;
              })))

module _ {S : Services} (h : ℕ) (now : ℤ) (s : Server S) where
  pub is_user_online_db :
      (u : ℤ) (db : S.Db) → is_user_online u (record s { db = db }) ≡ is_user_online u s
  unfolding is_user_online
  is_user_online_db u db = refl

  pub handle_login-Result : (req : LoginRequest) → Result h now s login_resp (handle_login h req s)
  unfolding handle_login login_error login_verified
  handle_login-Result req =
      let (found, db) = S.verify_user req.username req.password s.db in
      elim (Option-cases found) [
        | inl e ↦ rw (e, handle_login) (answered login_resp _ _)
        | inr (user, e) ↦
            rw (e, handle_login)
              (elim (Bool-cases (is_user_online user.user_id (record s { db = db }))) [
                | inl online ↦ rw online (answered login_resp _ _)
                | inr offline ↦
                    rw offline
                      (logged_in user req _ e (sym (is_user_online_db user.user_id db) ∙ offline))
              ])
      ]

  pub handle_chat_message-Result :
      (req : MessageRequest) → Result h now s message_resp (handle_chat_message h req now s)
  unfolding handle_chat_message message_response
  handle_chat_message-Result req = elim (Bool-cases (int_beq (get_user_id h s) (pos 0))) [
    | inl guest ↦ rw guest (answered message_resp _ s.db)
    | inr user ↦
        rw user
          (elim (Option-cases (S.send_message (get_user_id h s) req.to_id req.content s.db).0) [
            | inl e ↦ rw e (answered message_resp _ _)
            | inr (msg_id, e) ↦ rw e (passed_on req _ msg_id user e)
          ])
  ]

  pub handle_friend_list-Result : Result h now s friend_list_resp (handle_friend_list h s)
  unfolding handle_friend_list friend_list_response
  handle_friend_list-Result = elim (Bool-cases (int_beq (get_user_id h s) (pos 0))) [
    | inl guest ↦ rw guest (answered friend_list_resp _ s.db)
    | inr user ↦ rw user (elim (Option-cases (S.get_friends (get_user_id h s) s.db).0) [
      | inl e ↦ rw (e, handle_friend_list) (answered friend_list_resp _ _)
      | inr (friends, e) ↦ rw (e, handle_friend_list) (answered friend_list_resp _ _)
    ])
  ]

  pub add_both-Result :
      (req : AddFriendRequest) (db : S.Db)
      → Result h now s add_friend_resp (add_both h req (record s { db = db }))
  unfolding add_both add_friend_response
  add_both-Result req db = elim (Bool-cases (S.add_friend req.user_id req.friend_id db).0) [
    | inl added ↦ rw added (answered add_friend_resp _ _)
    | inr refused ↦ rw refused (answered add_friend_resp _ _)
  ]

  pub handle_add_friend-Result :
      (req : AddFriendRequest) → Result h now s add_friend_resp (handle_add_friend h req s)
  unfolding handle_add_friend add_friend_response
  handle_add_friend-Result req = elim (Bool-cases (int_beq (get_user_id h s) (pos 0))) [
    | inl guest ↦ rw guest (answered add_friend_resp _ s.db)
    | inr user ↦ rw user (elim (Bool-cases (int_beq req.user_id req.friend_id)) [
      | inl self ↦ rw self (answered add_friend_resp _ s.db)
      | inr other ↦ rw other (elim (Option-cases (S.get_user_by_id req.friend_id s.db).0) [
        | inl e ↦ rw (e, handle_add_friend) (answered add_friend_resp _ _)
        | inr (found, e) ↦ rw (e, handle_add_friend) (add_both-Result req _)
      ])
    ])
  ]

  pub handle_register-Result :
      (req : RegisterRequest) → Result h now s register_resp (handle_register h req s)
  unfolding handle_register register_response
  handle_register-Result req =
      elim (Bool-cases (
        is_empty req.username
        || is_empty req.password
        || is_empty req.security_question
        || is_empty req.security_answer)) [
          | inl empty ↦ rw empty (answered register_resp _ s.db)
          | inr filled ↦ rw filled (elim (Bool-cases (S.username_exists req.username s.db).0) [
            | inl old ↦ rw old (answered register_resp _ _)
            | inr new ↦
                rw new
                  (elim (Option-cases
                    (S.register_user req.username (sha256 S.digest req.password)
                      req.security_question (sha256 S.digest req.security_answer)
                      (S.username_exists req.username s.db).1).0) [
                        | inl e ↦ rw (e, handle_register) (answered register_resp _ _)
                        | inr (id, e) ↦ rw (e, handle_register) (answered register_resp _ _)
                      ])
          ])
        ]

  pub handle_security_question-Result :
      (req : SecurityQuestionRequest)
      → Result h now s security_question_resp (handle_security_question h req s)
  unfolding handle_security_question security_question_response
  handle_security_question-Result req = elim (Bool-cases (is_empty req.username)) [
    | inl empty ↦ rw empty (answered security_question_resp _ s.db)
    | inr filled ↦ rw filled (elim (Option-cases (S.get_security_question req.username s.db).0) [
      | inl e ↦ rw (e, handle_security_question) (answered security_question_resp _ _)
      | inr (found, e) ↦ rw (e, handle_security_question) (answered security_question_resp _ _)
    ])
  ]

  pub reset_answered-Result :
      (req : ResetPasswordRequest) (hash : List ℕ) (db : S.Db)
      → Result h now s reset_password_resp (reset_answered h req hash (record s { db = db }))
  unfolding reset_answered reset_password_response
  reset_answered-Result req hash db =
      elim (Bool-cases (text_beq (sha256 S.digest req.security_answer) hash)) [
        | inr wrong ↦ rw wrong (answered reset_password_resp _ _)
        | inl right ↦
            rw right
              (elim (Bool-cases
                (S.reset_password req.username (sha256 S.digest req.new_password) db).0) [
                  | inl done ↦ rw done (answered reset_password_resp _ _)
                  | inr refused ↦ rw refused (answered reset_password_resp _ _)
                ])
      ]

  pub handle_reset_password-Result :
      (req : ResetPasswordRequest)
      → Result h now s reset_password_resp (handle_reset_password h req s)
  unfolding handle_reset_password reset_password_response
  handle_reset_password-Result req =
      elim (Bool-cases
        (is_empty req.username || is_empty req.new_password || is_empty req.security_answer)) [
          | inl empty ↦ rw empty (answered reset_password_resp _ s.db)
          | inr filled ↦
              rw filled (elim (Option-cases (S.get_security_question req.username s.db).0) [
                | inl e ↦ rw (e, handle_reset_password) (answered reset_password_resp _ _)
                | inr (found, e) ↦
                    rw (e, handle_reset_password) (reset_answered-Result req found.1 _)
              ])
        ]

  pub handle_version_check-Result :
      (req : VersionCheckRequest) → Result h now s version_check_resp (handle_version_check h req s)
  unfolding handle_version_check
  handle_version_check-Result req = answered version_check_resp _ s.db

  pub decoded-Result :
      {A : Type 0} (c : CommandCode) (request : Outcome A) (handle : A → Server S → Server S)
      → ((req : A) → Result h now s c (handle req s))
      → {t : Server S} → decoded request handle s ≡ some t
      → (t ≡ s) ⊎ Result h now s c t
  decoded-Result c (ok req) handle k e = inr (rw (some-eq e) at (k req))
  decoded-Result c malformed handle k e = inl (sym (some-eq e))
  decoded-Result c fault handle k e = cc

  pub add_friend_payload-Result :
      (payload : List ℕ) {t : Server S}
      → add_friend_payload h payload s ≡ some t
      → (t ≡ s) ⊎ Result h now s add_friend_resp t
  unfolding add_friend_payload
  add_friend_payload-Result payload e = elim (Bool-cases (leb 4 (length payload))) [
    | inl long ↦
        decoded-Result add_friend_resp (read_int32 payload 0) _ (λ id. handle_add_friend-Result _)
          (rw (long, add_friend_payload) at e)
    | inr short ↦ inl (sym (some-eq (rw (short, add_friend_payload) at e)))
  ]
