-- ===== src/Database/Waiting.antt =====
-- When a method of DatabasePool waits for ever (server/src/database_pool.cpp).
use qq_copy.Base.{
  ℕ, zero, suc, ◌<◌, ◌≡◌, ◌≢◌, ◌⊎◌, inl, inr, refl, ◌∙◌, List, [], ◌∷◌, true, false, Option, none,
  some, length, Bool-cases, arith,
}
use qq_copy.Base.Int.{ℤ}
use qq_copy.Base.Text.{utf8}
use qq_copy.Io.{Io, Result, blocked}
use qq_copy.Mysql.{Mysql}
use qq_copy.Database.{
  DatabasePool, Borrowed, borrowed, connect, create_connection, fill_pool, open_pool,
  take_connection, use_borrowed, with_connection, rounds,
}
use qq_copy.Database.Calls.{DatabaseCall, run_call}
use qq_copy.Database.Queue.{run_call-with_connection, run_call-empty, length-snoc}

-- A connection answers, or there is a new one in its place.
abbrev pub Recovers : Mysql → Type 0
Recovers M =
    (p : DatabasePool M) (conn : ℕ) (w : M.World)
    → ((M.mysql_ping conn w).0 ≡ true)
      ⊎ ((new : ℕ) × ((create_connection p (M.mysql_close conn (M.mysql_ping conn w).1)).0
            ≡ some new))

-- The state after these calls, one after the other.
unfoldable pub run_calls : {M : Mysql} → List DatabaseCall → DatabasePool M → DatabasePool M
run_calls [] p = p
run_calls (c ∷ calls) p = run_calls calls (run_call c p).1

module _ (M : Mysql) where
  module _ (recovers : Recovers M) where
    take_connection-borrowed :
        (conn : ℕ) (p : DatabasePool M) → (new : ℕ) × ((take_connection conn p).0 ≡ borrowed new)
    unfolding take_connection
    take_connection-borrowed conn p = elim (Bool-cases (M.mysql_ping conn p.world).0) [
      | inl alive ↦ (conn, rw alive refl)
      | inr dead ↦ elim (recovers p conn p.world) [
        | inl alive ↦ absurd (cc)
        | inr (new, e) ↦ (new, rw (dead, e) refl)
      ]
    ]

    -- The method ends, and gives a connection back for the one it took.
    abbrev Runs : {A : Type 0} → ℕ → Result A × DatabasePool M → Type 0
    Runs n (r, q) = (r ≢ blocked) × (length q.connections ≡ n)

    module _ {A : Type 0} (body : ℕ → Io M.World A) where
      use_borrowed-Runs :
          (got : Borrowed) (new : ℕ) (rest : List ℕ) (p : DatabasePool M) (w : M.World)
          → got ≡ borrowed new
          → Runs
              (suc (length rest))
              (use_borrowed body (got, record p { connections = rest; world = w }))
      unfolding use_borrowed
      use_borrowed-Runs got new rest p w e = rw e ((λ h. cc), length-snoc M rest new)

      with_connection-Runs :
          (queue : List ℕ) (p : DatabasePool M)
          → 0 < length queue
          → Runs (length queue) (with_connection body (record p { connections = queue }))
      unfolding with_connection use_borrowed
      with_connection-Runs [] p h = absurd (omega arith)
      with_connection-Runs (conn ∷ rest) p h =
          let q = record p { connections = conn ∷ rest } in
          let (new, e) = take_connection-borrowed conn q in
          use_borrowed-Runs (take_connection conn q).0 new rest p (take_connection conn q).1 e

    run_call-Runs :
        (c : DatabaseCall) (p : DatabasePool M)
        → 0 < length p.connections
        → Runs (length p.connections) (run_call c p)
    run_call-Runs c p h =
        let (body, e) = run_call-with_connection M c in
        rw (e p) (with_connection-Runs body p.connections p h)

    -- Where a connection that does not answer its ping can be replaced, and the queue is not empty, no
    -- method waits for ever, after any calls of methods, and the queue keeps its length.
    pub calls_never_wait :
        (p : DatabasePool M) (calls : List DatabaseCall) (c : DatabaseCall)
        → 0 < length p.connections
        → ((run_call c (run_calls calls p)).0 ≢ blocked)
          × (length (run_calls calls p).connections ≡ length p.connections)
    unfolding run_calls
    calls_never_wait p [] c h = ((run_call-Runs c p h).0, refl)
    calls_never_wait p (d ∷ calls) c h =
        let (_, same) = run_call-Runs d p h in
        let more : 0 < length (run_call d p).1.connections = omega arith in
        let (runs, e) = calls_never_wait (run_call d p).1 calls c more in (runs, e ∙ same)

  module _
      (down : (conn : ℕ) (host user pass db : List ℕ) (port : ℤ) (w : M.World)
        → (M.mysql_real_connect conn host user pass db port w).0 ≡ false) where
    connect-none :
        (p : DatabasePool M) (made : Option ℕ) (w : M.World) → (connect p (made, w)).0 ≡ none
    unfolding connect
    connect-none p none w = refl
    connect-none p (some conn) w =
        rw
          (down conn p.host p.user p.password p.db_name p.port
            (M.mysql_options conn (utf8 "utf8mb4") w))
          refl

    fill_pool-empty :
        (n : ℕ) (p : DatabasePool M) → p.connections ≡ [] → (fill_pool n p).connections ≡ []
    unfolding fill_pool create_connection
    fill_pool-empty zero p h = h
    fill_pool-empty (suc n) p h =
        fill_pool-empty n _
          (rw (connect-none p (M.mysql_init p.world).0 (M.mysql_init p.world).1) h)

    open_pool-empty :
        (host : List ℕ) (port : ℤ) (db user pass : List ℕ) (pool_size : ℤ) (w : M.World)
        → (open_pool {M = M} host port db user pass pool_size w).connections ≡ []
    unfolding open_pool
    open_pool-empty host port db user pass pool_size w =
        fill_pool-empty (rounds pool_size)
          (record {
            host = host;
            port = port;
            db_name = db;
            user = user;
            password = pass;
            connections = [];
            world = w;
          })
          refl

    -- A pool made while the database refuses every connection has an empty queue for any size, and
    -- each call of a method then waits for ever and changes nothing.
    pub unreachable_database_blocks :
        (host : List ℕ) (port : ℤ) (db user pass : List ℕ) (pool_size : ℤ) (w : M.World)
        (c : DatabaseCall)
        → ((open_pool {M = M} host port db user pass pool_size w).connections ≡ [])
          × (run_call c (open_pool {M = M} host port db user pass pool_size w)
              ≡ (blocked, open_pool {M = M} host port db user pass pool_size w))
    unreachable_database_blocks host port db user pass pool_size w c =
        let e = open_pool-empty host port db user pass pool_size w in
        (e, run_call-empty M c (open_pool host port db user pass pool_size w) e)
