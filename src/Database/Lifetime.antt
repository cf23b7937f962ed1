-- ===== src/Database/Lifetime.antt =====
-- The whole life of a pool: the constructor, any calls of its methods, and the destructor
-- (server/src/database_pool.cpp).
use mathlib.Core.Path.{subst}
use qq_copy.Base.{ℕ, zero, suc, ◌≡◌, refl, sym, ap, List, [], ◌∷◌, Option, none, some}
use qq_copy.Base.Int.{ℤ}
use qq_copy.Io.{Result, ended, returned, refused, thrown, bad_read, blocked, endless}
use qq_copy.Mysql.{Mysql}
use qq_copy.Mysql.Ledger.{Ledger, watched, books, remove}
use qq_copy.Mysql.Counts.{Same, Same-nil, Same-cons, Same-remove, Same-member, Same-append}
use qq_copy.Database.{
  DatabasePool, push_created, create_connection, fill_pool, open_pool, close_connections,
  close_pool, rounds,
}
use qq_copy.Database.Resources.{Tidy, Settled, Opened, create_connection-Opened}
use qq_copy.Database.Calls.{DatabaseCall, run_call, Reachable, opened, called, IsReturn}
use qq_copy.Database.Restored.{run_call-Settled}

module _ (M : Mysql) where
  pushed-Tidy :
      (C : List ℕ) (p : DatabasePool (watched M)) (made : Option ℕ) (w : M.World × Ledger)
      → Same C p.connections
      → Opened M C (made, w)
      → Tidy M (record p { connections = push_created made p.connections; world = w })
  unfolding Opened
  pushed-Tidy C p (some conn) w s e =
      (conn ∷ C, e, Same-append conn (conn ∷ C) p.connections (Same-cons conn C p.connections s))
  pushed-Tidy C p none w s e = (C, e, s)

  created-Tidy :
      (p : DatabasePool (watched M))
      → Tidy M p
      → Tidy M (record p {
        connections = push_created (create_connection p p.world).0 p.connections;
        world = (create_connection p p.world).1;
      })
  created-Tidy p (C, e, s) = pushed-Tidy C p _ _ s (
      subst (λ l. Opened M C (create_connection p (p.world.0, l))) (sym e)
        (create_connection-Opened M C p p.world.0))

  fill_pool-Tidy : (n : ℕ) (p : DatabasePool (watched M)) → Tidy M p → Tidy M (fill_pool n p)
  unfolding fill_pool
  fill_pool-Tidy zero p h = h
  fill_pool-Tidy (suc n) p h = fill_pool-Tidy n _ (created-Tidy p h)

  Settled-Tidy :
      {A : Type 0} (r : Result A) (p : DatabasePool (watched M))
      → Settled M (r, p)
      → IsReturn r
      → Tidy M p
  Settled-Tidy (ended (returned a)) p h k = h
  Settled-Tidy (ended refused) p h k = h
  Settled-Tidy (ended thrown) p h k = absurd k
  Settled-Tidy (ended bad_read) p h k = absurd k
  Settled-Tidy blocked p h k = absurd k
  Settled-Tidy (ended endless) p h k = absurd k

  pub Reachable-Tidy :
      (pool_size : ℤ) (w : M.World) (p : DatabasePool (watched M))
      → Reachable (watched M) pool_size (w, books [] [] []) p
      → Tidy M p
  unfolding open_pool
  Reachable-Tidy pool_size w p (opened host port db user pass) =
      fill_pool-Tidy (rounds pool_size) _ ([], refl, λ h. refl)
  Reachable-Tidy pool_size w p (called q c reach back) =
      Settled-Tidy _ _ (run_call-Settled M c q (Reachable-Tidy pool_size w q reach)) back

  closed :
      (queue C : List ℕ) (p : DatabasePool (watched M)) (w : M.World)
      → Same C queue
      → (close_connections queue (record p { world = (w, books C [] []) })).world.1 ≡ books [] [] []
  unfolding close_connections
  closed [] C p w s = ap (λ D. books D [] []) (Same-nil C s)
  closed (conn ∷ rest) C p w s =
      let m = Same-member conn C rest s in
      rw (close_connections, m)
        (closed rest (remove conn C) (record p { connections = rest }) (M.mysql_close conn w)
          (Same-remove conn C rest m s))

  close_pool-books :
      (p : DatabasePool (watched M)) → Tidy M p → (close_pool p).world.1 ≡ books [] [] []
  unfolding close_pool
  close_pool-books p (C, e, s) =
      subst
        (λ l.
          (close_connections p.connections (record p { world = (p.world.0, l) })).world.1
          ≡ books [] [] [])
        (sym e) (closed p.connections C p p.world.0 s)

  -- Whatever the client library answers, in every state that a pool reaches from its constructor by
  -- calls that return: no call of the next method is made on a connection, statement or result that
  -- is not open, the next method closes the statements and results that it opens, also where it
  -- returns false or waits for ever, and then the open connections are exactly those in the queue,
  -- each once for every time it is there; and the destructor closes every connection once, so that
  -- nothing stays open. (A method that reads a variable behind its value, or that loops for ever, is
  -- only said to make no wrong call.)
  pub pool_uses_library_soundly :
      (pool_size : ℤ) (w : M.World) (p : DatabasePool (watched M))
      → Reachable (watched M) pool_size (w, books [] [] []) p
      → (c : DatabaseCall) → Settled M (run_call c p) × ((close_pool p).world.1 ≡ books [] [] [])
  pool_uses_library_soundly pool_size w p reach c =
      let h = Reachable-Tidy pool_size w p reach in (run_call-Settled M c p h, close_pool-books p h)
