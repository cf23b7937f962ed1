-- ===== src/Events/NeverReads.antt =====
-- A server that accepts connections and never starts them.
use qq_copy.Base.{
  ℕ, ◌≡◌, refl, sym, ap, ◌⊎◌, inl, inr, List, [], none, some, nat_eq, none-ne-some, false,
}
use qq_copy.Base.Int.{ℤ}
use qq_copy.Base.Assoc.{lookup, insert, lookup-insert_cases}
use qq_copy.Services.{Services}
use qq_copy.Server.{
  Server, Connection, not_reading, do_accept, manager_start, new_connection, stop_all,
  is_user_online,
}
use qq_copy.Events.{
  Step, accepts, reads_header, reads_body, fails_reading, runs_posted, writes, fails_writing, stops,
  Reach, here, next, initial,
}

-- No connection waits for a read, no function is posted, no write is pending, and the database
-- and the cache are as given.
pub record Idle {S : Services} (db : S.Db) (cache : S.Cache) (s : Server S) : Type 0 where
  pub no_read :
      (h : ℕ) (conn : Connection)
      → lookup h s.objects ≡ some conn
      → (conn.reading ≡ not_reading) × (conn.in_flight ≡ none)
  pub no_send : s.posted ≡ []
  pub no_user : s.user_to_conn ≡ []
  pub same_db : s.db ≡ db
  pub same_cache : s.cache ≡ cache

module _ {S : Services} (db : S.Db) (cache : S.Cache) where
  fresh_or_old :
      (h j : ℕ) (id : List ℕ) (s : Server S) {conn : Connection}
      → lookup j (insert h (new_connection id) s.objects) ≡ some conn
      → (new_connection id ≡ conn) ⊎ (lookup j s.objects ≡ some conn)
  fresh_or_old h j id s {conn} e =
      elim (lookup-insert_cases h j (new_connection id) conn s.objects e) [
        | inl (_, made) ↦ inl made
        | inr (_, old) ↦ inr old
      ]

  accept-Idle :
      (h : ℕ) (id : List ℕ) {s : Server S} → Idle db cache s → Idle db cache (do_accept h id s)
  unfolding do_accept manager_start new_connection
  accept-Idle h id {s} i = record {
    no_read = λ j conn e. elim (fresh_or_old h j id s e) [
      | inl made ↦ (ap (λ c. c.reading) (sym made), ap (λ c. c.in_flight) (sym made))
      | inr old ↦ i.no_read j conn old
    ];
    no_send = i.no_send;
    no_user = i.no_user;
    same_db = i.same_db;
    same_cache = i.same_cache;
  }

  stop_all-Idle : {s : Server S} → Idle db cache s → Idle db cache (stop_all s)
  unfolding stop_all
  stop_all-Idle i = record {
    no_read = i.no_read;
    no_send = i.no_send;
    no_user = refl;
    same_db = i.same_db;
    same_cache = i.same_cache;
  }

  Step-Idle : {s t : Server S} → Step s t → Idle db cache s → Idle db cache t
  Step-Idle (accepts h id free) i = accept-Idle h id i
  Step-Idle (reads_header h conn header e r size bytes) i = cc (r, (i.no_read h conn e).0)
  Step-Idle (reads_body h conn len body now e r size bytes done) i = cc (r, (i.no_read h conn e).0)
  Step-Idle (fails_reading h conn e r) i = absurd (r (i.no_read h conn e).0)
  Step-Idle (runs_posted h bytes rest e) i = cc (e, i.no_send)
  Step-Idle (writes h conn bytes e w) i = cc (w, (i.no_read h conn e).1)
  Step-Idle (fails_writing h conn bytes e w) i = cc (w, (i.no_read h conn e).1)
  Step-Idle stops i = stop_all-Idle i

  initial-Idle : Idle {S = S} db cache (initial {S = S} db cache)
  unfolding initial lookup
  initial-Idle = record {
    no_read = λ h conn e. absurd (none-ne-some e);
    no_send = refl;
    no_user = refl;
    same_db = refl;
    same_cache = refl;
  }

  Reach-Idle : {s t : Server S} → Reach s t → Idle db cache s → Idle db cache t
  Reach-Idle here i = i
  Reach-Idle (next r last) i = Step-Idle last (Reach-Idle r i)

  -- Whatever connects to the program and whatever it sends: no connection object ever waits for a
  -- header, a body or a write, no user is online, and the database and the cache are those of the
  -- start.
  pub server_never_reads :
      {s : Server S}
      → Reach (initial {S = S} db cache) s
      → ((h : ℕ) (conn : Connection)
          → lookup h s.objects ≡ some conn
          → (conn.reading ≡ not_reading) × (conn.in_flight ≡ none))
        × ((u : ℤ) → is_user_online u s ≡ false)
        × (s.db ≡ db)
        × (s.cache ≡ cache)
  unfolding is_user_online lookup
  server_never_reads {s} r =
      let i = Reach-Idle r initial-Idle in
      (i.no_read, (λ u. rw (i.no_user, is_user_online)), i.same_db, i.same_cache)
