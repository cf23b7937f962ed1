-- ===== src/Handlers/Relogin.antt =====
-- A connection that logs in twice (handle_login, server/src/message_handler.cpp, with
-- ConnectionManager::stop, server/src/connection_manager.cpp).
use qq_copy.Base.{
  ℕ, ◌≡◌, ◌≢◌, refl, sym, ap, ◌∙◌, List, true, false, ◌++◌, ◌∷◌, [], text_eq, none, some,
  if◌then◌else◌, nat_eq, beq-ne,
}
use qq_copy.Base.Int.{ℤ, pos, int_beq, int_beq_iff, int_eq}
use qq_copy.Base.Assoc.{lookup, lookup-erase}
use qq_copy.Outcome.{ok}
use qq_copy.Protocol.{LoginRequest, login_req}
use qq_copy.ServerCodec.{decode_login_request}
use qq_copy.Services.{Services, User}
use qq_copy.Server.{
  Server, Connection, get_id, get_user_id, set_user_id, set_user_connection, is_user_online, send,
  manager_stop, send_to_user,
}
use qq_copy.Handlers.Guests.{send_to_user_registered}
use qq_copy.Server.Objects.{update-frame, lookup-update_self, get_id-update, lookup-manager_stop}
use qq_copy.Handlers.{handle_login, login_verified, login_state, send_response}
use qq_copy.Handlers.Dispatch.{dispatch}
use qq_copy.Handlers.Access.{login_state-lookup}

-- The server `t` after the connection at `h` has logged in to `s` as `u`.
record IsLoggedIn {S : Services} (h : ℕ) (u : ℤ) (conn : Connection) (s t : Server S) : Type 0 where
  object : lookup h t.objects ≡ some (record conn { user_id = u })
  entries :
      (v : ℤ)
      → lookup v t.user_to_conn
        ≡ (if int_beq u v then some (get_id h s) else lookup v s.user_to_conn)
  same_id : get_id h t ≡ get_id h s
  same_connections : t.connections ≡ s.connections

module _ {S : Services} (h : ℕ) where
  login_state-IsLoggedIn :
      (u : ℤ) (conn : Connection) (s : Server S)
      → lookup h s.objects ≡ some conn
      → IsLoggedIn h u conn s (login_state h u s)
  unfolding login_state set_user_id set_user_connection get_id
  login_state-IsLoggedIn u conn s e =
      let f : Connection → Connection = λ c. record c { user_id = u } in
      record {
        object = lookup-update_self h f s e;
        entries = λ v. login_state-lookup h u v s;
        same_id = get_id-update h h f s (λ c. refl);
        same_connections = (update-frame h f s).0;
      }

  login_state-db : (u : ℤ) (s : Server S) → (login_state h u s).db ≡ s.db
  unfolding login_state set_user_id set_user_connection
  login_state-db u s = let (_, _, _, db, _) = update-frame h (λ c. record c { user_id = u }) s in db

  -- A login that the database accepts, of a user who is offline.
  handle_login-IsLoggedIn :
      (req : LoginRequest) (user : User) (conn : Connection) (s : Server S)
      → lookup h s.objects ≡ some conn
      → (S.verify_user req.username req.password s.db).0 ≡ some user
      → is_user_online user.user_id s ≡ false
      → IsLoggedIn h user.user_id conn s (handle_login h req s)
        × ((handle_login h req s).db ≡ (S.verify_user req.username req.password s.db).1)
  unfolding handle_login login_verified send_response send is_user_online get_id
  handle_login-IsLoggedIn req user conn s e found offline =
      let t : Server S = record s { db = (S.verify_user req.username req.password s.db).1 } in
      let done = login_state-IsLoggedIn user.user_id conn t e in
      rw (found, handle_login)
        (rw offline (
          record {
            object = done.object;
            entries = done.entries;
            same_id = done.same_id;
            same_connections = done.same_connections;
          },
          login_state-db user.user_id t,
        ))

  other_login-is_user_online :
      (first second : ℤ) (conn : Connection) (s t : Server S)
      → IsLoggedIn h first conn s t
      → first ≢ second
      → is_user_online second t ≡ is_user_online second s
  unfolding is_user_online
  other_login-is_user_online first second conn s t done differ =
      rw (rw (beq-ne first second differ) at (done.entries second), is_user_online)

  module _ (first second : ℤ) (conn : Connection) (s s1 s2 : Server S)
      (one : IsLoggedIn h first conn s s1)
      (two : IsLoggedIn h second (record conn { user_id = first }) s1 s2)
      (differ : first ≢ second) where
    owner : get_user_id h s2 ≡ second
    unfolding get_user_id
    owner = rw (two.object, get_user_id)

    first_entry : lookup first s2.user_to_conn ≡ some (get_id h s)
    first_entry =
        rw (beq-ne second first (λ r. differ (sym r))) at (two.entries first)
        ∙ rw ((int_beq_iff first first).1 refl) at (one.entries first)

    manager_stop-lookup :
        (v : ℤ)
        → second ≢ pos 0
        → lookup v (manager_stop h s2).user_to_conn
          ≡ (if int_beq second v then none else lookup v s2.user_to_conn)
    unfolding manager_stop
    manager_stop-lookup v user =
        rw owner (rw (beq-ne second (pos 0) user) (lookup-erase second v s2.user_to_conn))

    second_is_offline : second ≢ pos 0 → is_user_online second (manager_stop h s2) ≡ false
    unfolding is_user_online
    second_is_offline user = rw (
      rw ((int_beq_iff second second).1 refl) at (manager_stop-lookup second user),
      is_user_online,
    )

    first_entry_stays :
        second ≢ pos 0 → lookup first (manager_stop h s2).user_to_conn ≡ some (get_id h s)
    first_entry_stays user =
        rw (beq-ne second first (λ r. differ (sym r))) at (manager_stop-lookup first user)
        ∙ first_entry

    first_is_unregistered : lookup (get_id h s) (manager_stop h s2).connections ≡ none
    first_is_unregistered =
        ap (λ id. lookup id (manager_stop h s2).connections) (sym (two.same_id ∙ one.same_id))
        ∙ lookup-manager_stop h s2

    sent_to_first :
        (bytes : List ℕ)
        → lookup (get_id h s) s.connections ≡ some h
        → send_to_user first bytes s2 ≡ (record s2 { posted = s2.posted ++ (h, bytes) ∷ [] }, true)
    sent_to_first bytes registered =
        send_to_user_registered first bytes s2 first_entry
          (ap (lookup (get_id h s)) (two.same_connections ∙ one.same_connections) ∙ registered)

-- Two login requests on a registered connection, of two users who are offline and whom the database
-- accepts, the second one's number not being 0, are both carried out. Then the connection's user is
-- the second, and what is sent to the first user is posted to this connection. When the connection
-- stops, the second user is offline again, but the entry of the first user stays, and names a
-- connection that is not registered.
pub second_login_confuses_users :
    {S : Services} (h : ℕ) (s : Server S) (conn : Connection) (payload1 payload2 : List ℕ)
    (req1 req2 : LoginRequest) (user1 user2 : User) (now1 now2 : ℤ) (bytes : List ℕ)
    → lookup h s.objects ≡ some conn
    → lookup (get_id h s) s.connections ≡ some h
    → decode_login_request payload1 ≡ ok req1
    → decode_login_request payload2 ≡ ok req2
    → (S.verify_user req1.username req1.password s.db).0 ≡ some user1
    → (S.verify_user req2.username req2.password
        (S.verify_user req1.username req1.password s.db).1).0
      ≡ some user2
    → is_user_online user1.user_id s ≡ false
    → is_user_online user2.user_id s ≡ false
    → user2.user_id ≢ pos 0
    → user1.user_id ≢ user2.user_id
    → (s1 : Server S) × (s2 : Server S) × (dispatch login_req h payload1 now1 s ≡ some s1)
      × (dispatch login_req h payload2 now2 s1 ≡ some s2)
      × (get_user_id h s2 ≡ user2.user_id)
      × (send_to_user user1.user_id bytes s2
          ≡ (record s2 { posted = s2.posted ++ (h, bytes) ∷ [] }, true))
      × (is_user_online user2.user_id (manager_stop h s2) ≡ false)
      × (lookup user1.user_id (manager_stop h s2).user_to_conn ≡ some (get_id h s))
      × (lookup (get_id h s) (manager_stop h s2).connections ≡ none)
unfolding dispatch
second_login_confuses_users {S} h s conn payload1 payload2 req1 req2 user1 user2 now1 now2 bytes e
      registered decoded1 decoded2 found1 found2 offline1 offline2 user differ =
    let s1 = handle_login h req1 s in
    let s2 = handle_login h req2 s1 in
    let (one, db) = handle_login-IsLoggedIn h req1 user1 conn s e found1 offline1 in
    let still : is_user_online user2.user_id s1 ≡ false =
      other_login-is_user_online h user1.user_id user2.user_id conn s s1 one differ ∙ offline2 in
    let (two, _) =
      handle_login-IsLoggedIn h req2 user2 (record conn { user_id = user1.user_id }) s1 one.object
        (rw db found2) still in
    let u1 = user1.user_id in
    let u2 = user2.user_id in
    (
      s1,
      s2,
      rw decoded1 refl,
      rw decoded2 refl,
      owner h u1 u2 conn s s1 s2 one two differ,
      sent_to_first h u1 u2 conn s s1 s2 one two differ bytes registered,
      second_is_offline h u1 u2 conn s s1 s2 one two differ user,
      first_entry_stays h u1 u2 conn s s1 s2 one two differ user,
      first_is_unregistered h u1 u2 conn s s1 s2 one two differ,
    )
