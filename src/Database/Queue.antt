-- ===== src/Database/Queue.antt =====
-- How long the queue of a DatabasePool is (server/src/database_pool.cpp).
use qq_copy.Base.{
  ℕ, zero, suc, ◌+◌, ◌≤◌, ◌≡◌, ◌⊎◌, ◌≢◌, inl, inr, Bool-cases, refl, ◌∙◌, List, [], ◌∷◌, ◌++◌,
  Option, none, some, length, length-append, arith,
}
use qq_copy.Base.Int.{ℤ}
use qq_copy.Io.{Io, Result, ended, refused, blocked}
use qq_copy.Mysql.{Mysql}
use qq_copy.Database.{
  DatabasePool, Borrowed, borrowed, null_connection, no_connection, push_created, create_connection,
  fill_pool, open_pool, take_connection, use_borrowed, with_connection, rounds, as_borrowed,
}
use qq_copy.Database.Users.{
  verify_user, register_user, username_exists, get_security_question, reset_password,
  update_password, get_user_by_id, get_user_by_name, add_user,
}
use qq_copy.Database.Friends.{get_friends, add_friend, delete_friend}
use qq_copy.Database.Messages.{send_message, get_messages}
use qq_copy.Database.Calls.{
  DatabaseCall, Answer, run_call, call_verify_user, call_register_user, call_username_exists,
  call_get_security_question, call_reset_password, call_update_password, call_get_user_by_id,
  call_get_user_by_name, call_add_user, call_get_friends, call_add_friend, call_delete_friend,
  call_send_message, call_get_messages, Reachable, opened, called,
}

module _ (M : Mysql) where
  -- Every method borrows one connection for all it does.
  pub run_call-with_connection :
      (c : DatabaseCall)
      → (body : ℕ → Io M.World (Answer c)) × ((p : DatabasePool M)
          → run_call c p ≡ with_connection body p)
  unfolding run_call verify_user register_user username_exists get_security_question reset_password
      update_password get_user_by_id get_user_by_name add_user get_friends add_friend delete_friend
      send_message get_messages
  run_call-with_connection (call_verify_user a b c d) = (_, λ p. refl)
  run_call-with_connection (call_register_user a b c d) = (_, λ p. refl)
  run_call-with_connection (call_username_exists a) = (_, λ p. refl)
  run_call-with_connection (call_get_security_question a) = (_, λ p. refl)
  run_call-with_connection (call_reset_password a b) = (_, λ p. refl)
  run_call-with_connection (call_update_password a b) = (_, λ p. refl)
  run_call-with_connection (call_get_user_by_id a b) = (_, λ p. refl)
  run_call-with_connection (call_get_user_by_name a b) = (_, λ p. refl)
  run_call-with_connection (call_add_user a b) = (_, λ p. refl)
  run_call-with_connection (call_get_friends a b c) = (_, λ p. refl)
  run_call-with_connection (call_add_friend a b) = (_, λ p. refl)
  run_call-with_connection (call_delete_friend a b) = (_, λ p. refl)
  run_call-with_connection (call_send_message a b c) = (_, λ p. refl)
  run_call-with_connection (call_get_messages a b c d e) = (_, λ p. refl)

  -- What a method does to a queue of this length.
  abbrev pub QueueAfter : {A : Type 0} → ℕ → Result A × DatabasePool M → Type 0
  QueueAfter n (r, q) =
      (length q.connections ≡ n) ⊎ ((suc (length q.connections) ≡ n) × (r ≡ ended refused))

  pub length-snoc : (rest : List ℕ) (conn : ℕ) → length (rest ++ conn ∷ []) ≡ suc (length rest)
  length-snoc rest conn = length-append rest (conn ∷ []) ∙ omega arith

  as_borrowed-ne : (made : Option ℕ) → as_borrowed made ≢ no_connection
  as_borrowed-ne (some conn) = λ e. cc
  as_borrowed-ne none = λ e. cc

  take_connection-ne : (conn : ℕ) (p : DatabasePool M) → (take_connection conn p).0 ≢ no_connection
  unfolding take_connection
  take_connection-ne conn p = elim (Bool-cases (M.mysql_ping conn p.world).0) [
    | inl alive ↦ rw alive (λ e. cc)
    | inr dead ↦ rw dead (as_borrowed-ne _)
  ]

  module _ {A : Type 0} (body : ℕ → Io M.World A) where
    use_borrowed-queue :
        (got : Borrowed) (rest : List ℕ) (p : DatabasePool M) (w : M.World)
        → got ≢ no_connection
        → QueueAfter
            (suc (length rest))
            (use_borrowed body (got, record p { connections = rest; world = w }))
    unfolding use_borrowed
    use_borrowed-queue (borrowed conn) rest p w h = inl (length-snoc rest conn)
    use_borrowed-queue null_connection rest p w h = inr (refl, refl)
    use_borrowed-queue no_connection rest p w h = absurd (h refl)

    with_connection-queue :
        (queue : List ℕ) (p : DatabasePool M)
        → QueueAfter (length queue) (with_connection body (record p { connections = queue }))
    unfolding with_connection use_borrowed
    with_connection-queue [] p = inl refl
    with_connection-queue (conn ∷ rest) p =
        let q = record p { connections = conn ∷ rest } in
        use_borrowed-queue (take_connection conn q).0 rest p (take_connection conn q).1
          (take_connection-ne conn q)

    -- An empty queue is waited for, and nothing changes.
    with_connection-empty :
        (queue : List ℕ) (p : DatabasePool M)
        → queue ≡ []
        → with_connection body (record p { connections = queue })
          ≡ (blocked, record p { connections = queue })
    unfolding with_connection use_borrowed
    with_connection-empty [] p e = refl
    with_connection-empty (conn ∷ rest) p e = absurd (cc)

  pub run_call-queue :
      (c : DatabaseCall) (p : DatabasePool M) → QueueAfter (length p.connections) (run_call c p)
  run_call-queue c p =
      let (body, e) = run_call-with_connection c in
      rw (e p) (with_connection-queue body p.connections p)

  pub run_call-empty :
      (c : DatabaseCall) (p : DatabasePool M) → p.connections ≡ [] → run_call c p ≡ (blocked, p)
  run_call-empty c p h =
      let (body, e) = run_call-with_connection c in
      e p ∙ with_connection-empty body p.connections p h

  push_created-le :
      (made : Option ℕ) (queue : List ℕ) → length (push_created made queue) ≤ suc (length queue)
  push_created-le (some conn) queue = omega (arith, length-snoc queue conn)
  push_created-le none queue = omega arith

  fill_pool-le :
      (n : ℕ) (p : DatabasePool M) → length (fill_pool n p).connections ≤ length p.connections + n
  unfolding fill_pool
  fill_pool-le zero p = omega arith
  fill_pool-le (suc n) p =
      let (made, w) = create_connection p p.world in
      let q = record p { connections = push_created made p.connections; world = w } in
      let tail = fill_pool-le n q in let step = push_created-le made p.connections in omega arith

  open_pool-le :
      (host : List ℕ) (port : ℤ) (db user pass : List ℕ) (pool_size : ℤ) (w : M.World)
      → length (open_pool {M = M} host port db user pass pool_size w).connections ≤ rounds pool_size
  unfolding open_pool
  open_pool-le host port db user pass pool_size w =
      let start = fill_pool-le (rounds pool_size) (record {
        host = host;
        port = port;
        db_name = db;
        user = user;
        password = pass;
        connections = [];
        world = w;
      }) in
      omega (arith, start)

  Reachable-le :
      (pool_size : ℤ) (w : M.World) (p : DatabasePool M)
      → Reachable M pool_size w p
      → length p.connections ≤ rounds pool_size
  Reachable-le pool_size w p (opened host port db user pass) =
      open_pool-le host port db user pass pool_size w
  Reachable-le pool_size w p (called q c reach back) =
      let before = Reachable-le pool_size w q reach in
      elim (run_call-queue c q) [ inl same ↦ omega arith | inr (lost, _) ↦ omega arith ]

  -- In every state that a pool of this size reaches from its constructor by calls that return, its
  -- queue holds no more connections than the size (none for a negative size), and the next method
  -- leaves the queue as long as it was, or one shorter, and then the method returns false.
  pub queue_is_bounded :
      (pool_size : ℤ) (w : M.World) (p : DatabasePool M)
      → Reachable M pool_size w p
      → (c : DatabaseCall)
      → (length p.connections ≤ rounds pool_size) × QueueAfter (length p.connections) (run_call c p)
  queue_is_bounded pool_size w p reach c = (Reachable-le pool_size w p reach, run_call-queue c p)
