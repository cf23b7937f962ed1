-- ===== src/Events/Login.antt =====
-- A login from the client's method through the server to the client's callback.
use qq_copy.Base.{
  ℕ, ◌^◌, ◌<◌, ◌≡◌, refl, ap, ◌∙◌, List, [], ◌∷◌, ◌++◌, length, Bool, true, false, some,
}
use qq_copy.Base.Int.{ℤ, IsSigned}
use qq_copy.Outcome.{ok}
use qq_copy.Protocol.{LoginRequest, success, error_value, login_resp}
use qq_copy.ServerCodec.{encode_login_response}
use qq_copy.ClientCodec.{encode_login_request}
use qq_copy.Services.{Services, User}
use qq_copy.Server.{Server, is_user_online, send, do_read_header}
use qq_copy.Handlers.{handle_login, login_verified, send_response}
use qq_copy.Handlers.Results.{is_user_online_db}
use qq_copy.Handlers.Access.{response_entry, login_state-posted}
use qq_copy.ChatClient.{login_call, handle_packet}
use qq_copy.ChatClient.Answers.{login_answer_is_called}
use qq_copy.ChatClient.Session.{Client, login, send_packet}
use qq_copy.Events.EndToEnd.{request_read, login_request_is_handled, do_read_header-posted}

handle_login-posted :
    {S : Services} (h : ℕ) (req : LoginRequest) (user : User) (s : Server S)
    → (S.verify_user req.username req.password s.db).0 ≡ some user
    → is_user_online user.user_id s ≡ false
    → (handle_login h req s).posted
      ≡ s.posted
        ++ response_entry h login_resp (
            encode_login_response
              (record { error_code = success; user_id = user.user_id; username = user.username }))
          ∷ []
unfolding handle_login login_verified send_response send
handle_login-posted {S} h req user s found offline =
    let db1 : S.Db = (S.verify_user req.username req.password s.db).1 in
    rw (found, handle_login)
      (rw (is_user_online_db h user.user_id s user.user_id db1 ∙ offline) (
        ap
          (λ p.
            p
            ++ response_entry h login_resp (
                encode_login_response (record {
                  error_code = success;
                  user_id = user.user_id;
                  username = user.username;
                }))
              ∷ [])
          (login_state-posted h user.user_id (record s { db = db1 }))))

sent-login :
    (u p : List ℕ) (callback : Bool) (client : Client)
    → client.socket_open ≡ true
    → ((login u p callback client).sent ≡ client.sent ++ encode_login_request u p ∷ [])
      × ((login u p callback client).callbacks.login_callback ≡ callback)
unfolding login send_packet
sent-login u p callback client open_socket = rw (open_socket, send_packet) (refl, refl)

-- A login with an open socket, strings of fewer than 2 ^ 16 bytes, and a user whom the database finds
-- and who is not online, whose number is an int and whose name has fewer than 2 ^ 16 bytes: the
-- client hands one packet to the socket; when the server has read it, it posts one packet more to the
-- same connection; and for this packet the client calls the callback that was passed to `login` with
-- success, the user's number and the user's name.
pub login_reaches_callback :
    {S : Services} (client : Client) (u p : List ℕ) (h : ℕ) (now : ℤ) (s : Server S) (user : User)
    → client.socket_open ≡ true
    → length u < 2 ^ 16
    → length p < 2 ^ 16
    → (S.verify_user u p s.db).0 ≡ some user
    → is_user_online user.user_id s ≡ false
    → IsSigned (2 ^ 31) user.user_id
    → length user.username < 2 ^ 16
    → (request reply : List ℕ) × (t : Server S) × ((login u p true client).sent
        ≡ client.sent ++ request ∷ [])
      × (request_read h request now s ≡ some t)
      × (t.posted ≡ s.posted ++ (h, reply) ∷ [])
      × (handle_packet (login u p true client).callbacks reply
          ≡ ok (login_call (error_value success) user.user_id user.username ∷ []))
login_reaches_callback client u p h now s user open_socket u_fits p_fits found offline id_fits
      name_fits =
    let req : LoginRequest = record { username = u; password = p } in
    let (sent, kept) = sent-login u p true client open_socket in
    let reply : List ℕ =
      (response_entry h login_resp (
        encode_login_response
          (record { error_code = success; user_id = user.user_id; username = user.username }))).1 in
    (
      encode_login_request u p,
      reply,
      do_read_header h (handle_login h req s),
      sent,
      login_request_is_handled h u p now s u_fits p_fits,
      do_read_header-posted h (handle_login h req s)
          ∙ handle_login-posted h req user s found offline,
      login_answer_is_called (login u p true client).callbacks success user.user_id user.username
            id_fits name_fits
          ∙ rw kept,
    )
