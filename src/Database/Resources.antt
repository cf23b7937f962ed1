-- ===== src/Database/Resources.antt =====
-- The books over a pool: what its queue holds is what is open (server/src/database_pool.cpp).
use qq_copy.Base.{
  ℕ, ◌≡◌, refl, List, [], ◌∷◌, Bool, true, false, Option, none, some, if◌then◌else◌, sym,
}
use mathlib.Core.Path.{subst}
use qq_copy.Base.Text.{utf8}
use qq_copy.Io.{Io, Exit, Result, ended, returned, refused, thrown, bad_read, blocked, endless}
use qq_copy.Mysql.{Mysql}
use qq_copy.Mysql.Ledger.{Ledger, watched, books, After, member, ==-refl, remove, opened_connection}
use qq_copy.Mysql.Bookkeeping.{Keeps}
use qq_copy.Mysql.Counts.{Same, Same-cons, Same-remove, Same-member, Same-append}
use qq_copy.Database.{
  DatabasePool, Borrowed, borrowed, null_connection, no_connection, as_borrowed, connect,
  create_connection, take_connection, use_borrowed, with_connection, release_connection,
}

-- No wrong call was made, no statement or result is open, and the open connections are the queue's.
abbrev pub Tidy : (M : Mysql) → DatabasePool (watched M) → Type 0
Tidy M p = (C : List ℕ) × (p.world.1 ≡ books C [] []) × Same C p.connections

-- What holds where a method ends in one of the ways the program goes on after, and otherwise.
abbrev pub Settled : (M : Mysql) {A : Type 0} → Result A × DatabasePool (watched M) → Type 0
Settled M (ended (returned a), p) = Tidy M p
Settled M (ended refused, p) = Tidy M p
Settled M (blocked, p) = Tidy M p
Settled M (ended thrown, p) = p.world.1.sound ≡ true
Settled M (ended bad_read, p) = p.world.1.sound ≡ true
Settled M (ended endless, p) = p.world.1.sound ≡ true

-- A method's use of its connection leaves the books as they were.
abbrev pub Restores : (M : Mysql) {A : Type 0} → (ℕ → Io (M.World × Ledger) A) → Type 0
Restores M body =
    (C : List ℕ) (conn : ℕ)
    → member conn C ≡ true
    → Keeps (books C [] []) (λ _. books C [] []) (books C [] []) (body conn)

module _ (M : Mysql) where
  -- A new connection is open beside the others.
  unfoldable pub Opened : List ℕ → Option ℕ × (M.World × Ledger) → Type 0
  Opened C (some conn, w) = w.1 ≡ books (conn ∷ C) [] []
  Opened C (none, w) = w.1 ≡ books C [] []

  connect-Opened :
      (C : List ℕ) (p : DatabasePool (watched M)) (made : Option ℕ) (w : M.World)
      → Opened C (connect p (made, (w, opened_connection made (books C [] []))))
  unfolding connect Opened
  connect-Opened C p none w = refl
  connect-Opened C p (some conn) w = rw (==-refl conn) (
      connected-Opened (
        M.mysql_real_connect conn p.host p.user p.password p.db_name p.port
          (M.mysql_options conn (utf8 "utf8mb4") w)))
    where
      connected-Opened :
          (r : Bool × M.World)
          → Opened C (
              if r.0
              then (some conn, (r.1, books (conn ∷ C) [] []))
              else (none, (M.mysql_close conn r.1, books C [] [])))
      connected-Opened (true, v) = refl
      connected-Opened (false, v) = refl

  pub create_connection-Opened :
      (C : List ℕ) (p : DatabasePool (watched M)) (w : M.World)
      → Opened C (create_connection p (w, books C [] []))
  unfolding create_connection
  create_connection-Opened C p w = connect-Opened C p (M.mysql_init w).0 (M.mysql_init w).1

  -- The result of borrowing, with what is left of the queue.
  unfoldable Taken : List ℕ → Borrowed × (M.World × Ledger) → Type 0
  Taken rest (borrowed conn, w) = (C : List ℕ) × (w.1 ≡ books C [] []) × Same C (conn ∷ rest)
  Taken rest (null_connection, w) = (C : List ℕ) × (w.1 ≡ books C [] []) × Same C rest
  Taken rest (no_connection, w) = ⊥

  Opened-Taken :
      (C rest : List ℕ) (made : Option ℕ) (w : M.World × Ledger)
      → Opened C (made, w)
      → Same C rest
      → Taken rest (as_borrowed made, w)
  unfolding Opened Taken
  Opened-Taken C rest (some conn) w h s = (conn ∷ C, h, Same-cons conn C rest s)
  Opened-Taken C rest none w h s = (C, h, s)

  replaced-Taken :
      (C rest : List ℕ) (conn : ℕ) (alive : Bool) (w : M.World) (p : DatabasePool (watched M))
      → member conn C ≡ true
      → Same C (conn ∷ rest)
      → Taken rest (
          if alive
          then (borrowed conn, (w, books C [] []))
          else (let (made, w2) =
                create_connection p (M.mysql_close conn w, books (remove conn C) [] []) in
              (as_borrowed made, w2)))
  unfolding Taken
  replaced-Taken C rest conn true w p m s = (C, refl, s)
  replaced-Taken C rest conn false w p m s =
      Opened-Taken (remove conn C) rest _ _
        (create_connection-Opened (remove conn C) p (M.mysql_close conn w))
        (Same-remove conn C rest m s)

  -- A pool with these connections in its queue, and these books.
  abbrev pool_with : DatabasePool (watched M) → List ℕ → M.World → Ledger → DatabasePool (watched M)
  pool_with p queue w l = record p { connections = queue; world = (w, l) }

  take_connection-Taken :
      (C queue rest : List ℕ) (conn : ℕ) (p : DatabasePool (watched M)) (w : M.World)
      → Same C (conn ∷ rest)
      → Taken rest (take_connection conn (pool_with p queue w (books C [] [])))
  unfolding take_connection
  take_connection-Taken C queue rest conn p w s =
      let m = Same-member conn C rest s in
      let q = pool_with p queue w (books C [] []) in
      rw m (replaced-Taken C rest conn (M.mysql_ping conn w).0 (M.mysql_ping conn w).1 q m s)

  module _ {A : Type 0} (body : ℕ → Io (M.World × Ledger) A) (keep : Restores M body) where
    released-Settled :
        (C rest : List ℕ) (conn : ℕ) (p : DatabasePool (watched M))
        (r : Exit A × (M.World × Ledger))
        → After (λ _. books C [] []) (books C [] []) r
        → Same C (conn ∷ rest)
        → Settled M
            (ended r.0, release_connection conn (record p { connections = rest; world = r.1 }))
    unfolding release_connection
    released-Settled C rest conn p (returned a, w) h s = (C, h, Same-append conn C rest s)
    released-Settled C rest conn p (refused, w) h s = (C, h, Same-append conn C rest s)
    released-Settled C rest conn p (thrown, w) h s = h
    released-Settled C rest conn p (bad_read, w) h s = h
    released-Settled C rest conn p (endless, w) h s = h

    use_borrowed-Settled :
        (rest : List ℕ) (p : DatabasePool (watched M)) (got : Borrowed) (w : M.World) (l : Ledger)
        → Taken rest (got, (w, l))
        → Settled M (use_borrowed body (got, pool_with p rest w l))
    unfolding use_borrowed Taken
    use_borrowed-Settled rest p (borrowed conn) w l (C, e, s) = rw e (
        released-Settled C rest conn p (body conn (w, books C [] []))
          ((keep C conn (Same-member conn C rest s)).at w) s)
    use_borrowed-Settled rest p null_connection w l h = h
    use_borrowed-Settled rest p no_connection w l h = absurd h

    queue-Settled :
        (C queue : List ℕ) (p : DatabasePool (watched M)) (w : M.World)
        → Same C queue
        → Settled M (with_connection body (pool_with p queue w (books C [] [])))
    unfolding with_connection use_borrowed
    queue-Settled C [] p w s = (C, refl, s)
    queue-Settled C (conn ∷ rest) p w s =
        use_borrowed-Settled rest p _ _ _ (take_connection-Taken C (conn ∷ rest) rest conn p w s)

    pub with_connection-Settled :
        (p : DatabasePool (watched M)) → Tidy M p → Settled M (with_connection body p)
    with_connection-Settled p (C, e, s) =
        subst (λ l. Settled M (with_connection body (pool_with p p.connections p.world.0 l)))
          (sym e) (queue-Settled C p.connections p p.world.0 s)
