-- ===== src/Cache/Lifetime.antt =====
-- The whole life of a cache: the constructor, any calls of its methods, and the destructor
-- (server/src/cache_manager.cpp).
use mathlib.Core.Path.{subst}
use qq_copy.Base.{ℕ, ◌≡◌, refl, sym, List, [], ◌∷◌, ◌++◌, Bool, true, false, Option, none, some}
use qq_copy.Base.Int.{ℤ}
use qq_copy.Io.{Io, Exit, returned, refused, thrown, bad_read, endless, Result, ended, blocked}
use qq_copy.Redis.{Redis, Reply}
use qq_copy.Redis.Books.{Books, tracked, good_books, new_context, receive_reply, addresses}
use qq_copy.Mysql.Ledger.{==-refl}
use qq_copy.Cache.{CacheManager, open_cache, connected, close_cache, with_context}
use qq_copy.Cache.Presence.{
  set_online, is_online, get_connection_id, set_connection_id, remove_connection_id, set_ttl,
  delete_key, exists_key, return_if, return_string,
}
use qq_copy.Cache.Counters.{
  add_friend, remove_friend, get_friends, clear_friends, increment_unread, decrement_unread,
  get_unread_count, clear_unread, return_count,
}
use qq_copy.Cache.Calls.{
  CacheCall, run_cache, call_set_online, call_is_online, call_get_connection_id,
  call_set_connection_id, call_remove_connection_id, call_set_ttl, call_delete_key, call_exists_key,
  call_add_friend, call_remove_friend, call_get_friends, call_clear_friends, call_increment_unread,
  call_decrement_unread, call_get_unread_count, call_clear_unread,
}
use qq_copy.Cache.Replies.{
  Freed, Frees, write_command-Frees, send_command-Frees, read_command-Frees, get_friends-Frees,
  count_of-Quiet,
}

-- The contexts that are open.
abbrev pub held : Option ℕ → List ℕ
held none = []
held (some ctx) = ctx ∷ []

-- No wrong call was made, and the context is the only one that is open.
abbrev pub Holds : (R : Redis) → List ℕ → CacheManager (tracked R) → Type 0
Holds R L c = c.world.1 ≡ good_books (held c.context) L

-- The two methods that read a number with `std::stoi`.
abbrev pub may_throw : CacheCall → Bool
may_throw (call_get_friends a b) = true
may_throw (call_get_unread_count a) = true
may_throw (call_set_online a b) = false
may_throw (call_is_online a) = false
may_throw (call_get_connection_id a) = false
may_throw (call_set_connection_id a b) = false
may_throw (call_remove_connection_id a) = false
may_throw (call_set_ttl a b) = false
may_throw (call_delete_key a) = false
may_throw (call_exists_key a) = false
may_throw (call_add_friend a b) = false
may_throw (call_remove_friend a b) = false
may_throw (call_clear_friends a) = false
may_throw (call_increment_unread a) = false
may_throw (call_decrement_unread a) = false
may_throw (call_clear_unread a) = false

-- After a method the books are as they were, or it is one that may throw and has thrown, and the
-- addresses of one reply are live on top of those that were.
abbrev pub Kept :
    (R : Redis) {A : Type 0} → Bool → List ℕ → Result A × CacheManager (tracked R) → Type 0
Kept R throws L (ended (returned a), c) = Holds R L c
Kept R throws L (ended refused, c) = Holds R L c
Kept R throws L (ended thrown, c) = (throws ≡ true) × (r : Reply) × Holds R (addresses r ++ L) c
Kept R throws L (ended bad_read, c) = ⊥
Kept R throws L (ended endless, c) = ⊥
Kept R throws L (blocked, c) = Holds R L c

module _ (R : Redis) where
  module _ {A : Type 0} (throws : Bool) (body : ℕ → Io (R.World × Books) A)
      (frees : Frees R throws body) where
    used-Kept :
        (L : List ℕ) (ctx : ℕ) (c : CacheManager (tracked R)) (r : Exit A × (R.World × Books))
        → Freed throws (ctx ∷ []) L r
        → Kept R throws L (ended r.0, record c { context = some ctx; world = r.1 })
    used-Kept L ctx c (returned a, s) h = h
    used-Kept L ctx c (refused, s) h = h
    used-Kept L ctx c (thrown, s) h = h
    used-Kept L ctx c (bad_read, s) h = h
    used-Kept L ctx c (endless, s) h = h

    context-Kept :
        (L : List ℕ) (context : Option ℕ) (locked : Bool) (w : R.World)
        → Kept R throws L (
            with_context body (record {
              context = context;
              locked = locked;
              world = (w, good_books (held context) L);
            }))
    unfolding with_context
    context-Kept L context true w = refl
    context-Kept L none false w = refl
    context-Kept L (some ctx) false w =
        used-Kept L ctx
          (record { context = some ctx; locked = false; world = (w, good_books [] L) })
          (body ctx (w, good_books (ctx ∷ []) L)) (frees (ctx ∷ []) L ctx w (rw (==-refl ctx) refl))

    with_context-Kept :
        (L : List ℕ) (c : CacheManager (tracked R))
        → Holds R L c
        → Kept R throws L (with_context body c)
    with_context-Kept L c h =
        subst (λ b. Kept R throws L (with_context body (record c { world = (c.world.0, b) })))
          (sym h) (context-Kept L c.context c.locked c.world.0)

  return_if-Freed :
      (C L : List ℕ) (b : Bool) (w : R.World) → Freed false C L (return_if b (w, good_books C L))
  return_if-Freed C L true w = refl
  return_if-Freed C L false w = refl

  return_string-Freed :
      (C L : List ℕ) (o : Option (List ℕ)) (w : R.World)
      → Freed false C L (return_string o (w, good_books C L))
  return_string-Freed C L none w = refl
  return_string-Freed C L (some str) w = refl

  return_count-Freed :
      (C L : List ℕ) (o : Option ℤ) (w : R.World)
      → Freed true C L (return_count o (w, good_books C L))
  return_count-Freed C L none w = refl
  return_count-Freed C L (some n) w = refl

  run_cache-Kept :
      (call : CacheCall) (L : List ℕ) (c : CacheManager (tracked R))
      → Holds R L c
      → Kept R (may_throw call) L (run_cache call c)
  unfolding run_cache set_online is_online get_connection_id set_connection_id remove_connection_id
      set_ttl delete_key exists_key add_friend remove_friend get_friends clear_friends
      increment_unread decrement_unread get_unread_count clear_unread
  run_cache-Kept (call_set_online a b) = with_context-Kept false _ (write_command-Frees R _ _)
  run_cache-Kept (call_is_online a) =
      with_context-Kept false _
        (read_command-Frees R false _ _ _ _ (λ body s. refl) return_if-Freed)
  run_cache-Kept (call_get_connection_id a) =
      with_context-Kept false _
        (read_command-Frees R false _ _ _ _ (λ body s. refl) return_string-Freed)
  run_cache-Kept (call_set_connection_id a b) =
      with_context-Kept false _ (write_command-Frees R _ _)
  run_cache-Kept (call_remove_connection_id a) =
      with_context-Kept false _ (send_command-Frees R _ _)
  run_cache-Kept (call_set_ttl a b) = with_context-Kept false _ (write_command-Frees R _ _)
  run_cache-Kept (call_delete_key a) = with_context-Kept false _ (send_command-Frees R _ _)
  run_cache-Kept (call_exists_key a) =
      with_context-Kept false _
        (read_command-Frees R false _ _ _ _ (λ body s. refl) return_if-Freed)
  run_cache-Kept (call_add_friend a b) = with_context-Kept false _ (write_command-Frees R _ _)
  run_cache-Kept (call_remove_friend a b) = with_context-Kept false _ (write_command-Frees R _ _)
  run_cache-Kept (call_get_friends a b) = with_context-Kept true _ (get_friends-Frees R _ _ b)
  run_cache-Kept (call_clear_friends a) = with_context-Kept false _ (send_command-Frees R _ _)
  run_cache-Kept (call_increment_unread a) = with_context-Kept false _ (write_command-Frees R _ _)
  run_cache-Kept (call_decrement_unread a) = with_context-Kept false _ (write_command-Frees R _ _)
  run_cache-Kept (call_get_unread_count a) =
      with_context-Kept true _ (read_command-Frees R true _ _ _ _ count_of-Quiet return_count-Freed)
  run_cache-Kept (call_clear_unread a) = with_context-Kept false _ (write_command-Frees R _ _)

-- The state after these calls, one after the other.
unfoldable pub run_caches : {R : Redis} → List CacheCall → CacheManager R → CacheManager R
run_caches [] c = c
run_caches (call ∷ calls) c = run_caches calls (run_cache call c).1

module _ (R : Redis) where
  Kept-Holds :
      {A : Type 0} (throws : Bool) (L : List ℕ) (r : Result A × CacheManager (tracked R))
      → Kept R throws L r
      → (M : List ℕ) × Holds R M r.1
  Kept-Holds throws L (ended (returned a), c) h = (L, h)
  Kept-Holds throws L (ended refused, c) h = (L, h)
  Kept-Holds throws L (ended thrown, c) (_, r, h) = (addresses r ++ L, h)
  Kept-Holds throws L (ended bad_read, c) h = absurd h
  Kept-Holds throws L (ended endless, c) h = absurd h
  Kept-Holds throws L (blocked, c) h = (L, h)

  run_caches-Holds :
      (calls : List CacheCall) (L : List ℕ) (c : CacheManager (tracked R))
      → Holds R L c
      → (M : List ℕ) × Holds R M (run_caches calls c)
  unfolding run_caches
  run_caches-Holds [] L c h = (L, h)
  run_caches-Holds (call ∷ calls) L c h =
      let (N, k) = Kept-Holds (may_throw call) L (run_cache call c) (run_cache-Kept R call L c h) in
      run_caches-Holds calls N (run_cache call c).1 k

  connected-Holds :
      (db : ℤ) (made : Option ℕ × Bool) (w : R.World)
      → (L : List ℕ) × Holds R L
          (connected {R = tracked R} db made (w, new_context made.0 (good_books [] [])))
  unfolding connected
  connected-Holds db (none, good) w = ([], refl)
  connected-Holds db (some ctx, false) w = ([], rw (==-refl ctx) refl)
  connected-Holds db (some ctx, true) w = rw (==-refl ctx) (selected _)
    where
      selected :
          (r : Option Reply)
          → (L : List ℕ) × (receive_reply r (good_books (ctx ∷ []) []) ≡ good_books (ctx ∷ []) L)
      selected none = ([], refl)
      selected (some r) = (addresses r ++ [], refl)

  close_cache-books :
      (L : List ℕ) (context : Option ℕ) (locked : Bool) (w : R.World)
      → (close_cache {R = tracked R} (record {
        context = context;
        locked = locked;
        world = (w, good_books (held context) L);
      })).world.1
        ≡ good_books [] L
  unfolding close_cache
  close_cache-books L none locked w = refl
  close_cache-books L (some ctx) locked w = rw (==-refl ctx) refl

  -- Whatever the client library answers, after the constructor and any calls of the methods other than
  -- the template `pipeline`, each of which may have failed or thrown: no call was made on a context
  -- that is not open, and none freed a reply that is not live. The next method leaves just the replies
  -- live that were, so that it has freed what it received; but where `get_friends` or
  -- `get_unread_count` throws, and no other method does, one reply more is live. The destructor leaves
  -- no context open. (The replies that are live then, such as that to the command of the constructor,
  -- are never freed.)
  pub cache_uses_library_soundly :
      (host : List ℕ) (port db : ℤ) (w : R.World) (calls : List CacheCall) (call : CacheCall)
      → let c = run_caches calls (open_cache {R = tracked R} host port db (w, good_books [] [])) in
        (L : List ℕ) × Holds R L c
        × Kept R (may_throw call) L (run_cache call c)
        × ((close_cache c).world.1 ≡ good_books [] L)
  unfolding open_cache
  cache_uses_library_soundly host port db w calls call =
      let c0 = open_cache {R = tracked R} host port db (w, good_books [] []) in
      let made = R.redis_connect host port w in
      let (N, start) = connected-Holds db made.0 made.1 in
      let (L, h) = run_caches-Holds calls N c0 start in
      let c = run_caches calls c0 in
      (
        L,
        h,
        run_cache-Kept R call L c h,
        subst
            (λ b.
              (close_cache {R = tracked R} (record c { world = (c.world.0, b) })).world.1
              ≡ good_books [] L)
            (sym h) (close_cache-books L c.context c.locked c.world.0),
      )
