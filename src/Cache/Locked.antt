-- ===== src/Cache/Locked.antt =====
-- Methods of a cache without a connection, and of one whose lock is held; the template `pipeline`
-- (server/src/cache_manager.cpp and server/include/qqchat/cache_manager.hpp).
use qq_copy.Base.{ℕ, ◌≡◌, refl, ◌∙◌, true, false, Option, none, some}
use qq_copy.Base.Text.{utf8}
use qq_copy.Io.{Io, Result, ended, returned, refused, thrown, bad_read, endless, blocked}
use qq_copy.Redis.{Redis}
use qq_copy.Cache.{CacheManager, cache_with, with_context}
use qq_copy.Cache.Presence.{
  set_online, is_online, get_connection_id, set_connection_id, remove_connection_id, set_ttl,
  delete_key, exists_key,
}
use qq_copy.Cache.Counters.{
  add_friend, remove_friend, get_friends, clear_friends, increment_unread, decrement_unread,
  get_unread_count, clear_unread,
}
use qq_copy.Cache.Pipeline.{after_commands, pipeline}
use qq_copy.Cache.Calls.{
  CacheCall, CacheAnswer, run_cache, call_set_online, call_is_online, call_get_connection_id,
  call_set_connection_id, call_remove_connection_id, call_set_ttl, call_delete_key, call_exists_key,
  call_add_friend, call_remove_friend, call_get_friends, call_clear_friends, call_increment_unread,
  call_decrement_unread, call_get_unread_count, call_clear_unread,
}

-- The result of a call that nobody uses.
abbrev as_step : {A : Type 0} → Result A → Result (Unit {0})
as_step (ended (returned a)) = ended (returned tt)
as_step (ended refused) = ended refused
as_step (ended thrown) = ended thrown
as_step (ended bad_read) = ended bad_read
as_step (ended endless) = ended endless
as_step blocked = blocked

module _ (R : Redis) where
  run_cache-with_context :
      (call : CacheCall)
      → (body : ℕ → Io R.World (CacheAnswer call)) × ((c : CacheManager R)
          → run_cache call c ≡ with_context body c)
  unfolding run_cache set_online is_online get_connection_id set_connection_id remove_connection_id
      set_ttl delete_key exists_key add_friend remove_friend get_friends clear_friends
      increment_unread decrement_unread get_unread_count clear_unread
  run_cache-with_context (call_set_online a b) = (_, λ c. refl)
  run_cache-with_context (call_is_online a) = (_, λ c. refl)
  run_cache-with_context (call_get_connection_id a) = (_, λ c. refl)
  run_cache-with_context (call_set_connection_id a b) = (_, λ c. refl)
  run_cache-with_context (call_remove_connection_id a) = (_, λ c. refl)
  run_cache-with_context (call_set_ttl a b) = (_, λ c. refl)
  run_cache-with_context (call_delete_key a) = (_, λ c. refl)
  run_cache-with_context (call_exists_key a) = (_, λ c. refl)
  run_cache-with_context (call_add_friend a b) = (_, λ c. refl)
  run_cache-with_context (call_remove_friend a b) = (_, λ c. refl)
  run_cache-with_context (call_get_friends a b) = (_, λ c. refl)
  run_cache-with_context (call_clear_friends a) = (_, λ c. refl)
  run_cache-with_context (call_increment_unread a) = (_, λ c. refl)
  run_cache-with_context (call_decrement_unread a) = (_, λ c. refl)
  run_cache-with_context (call_get_unread_count a) = (_, λ c. refl)
  run_cache-with_context (call_clear_unread a) = (_, λ c. refl)

  refused_without :
      {A : Type 0} (body : ℕ → Io R.World A) (w : R.World)
      → with_context body (cache_with R none false w) ≡ (ended refused, cache_with R none false w)
  unfolding with_context
  refused_without body w = refl

  blocked_when_locked :
      {A : Type 0} (body : ℕ → Io R.World A) (context : Option ℕ) (w : R.World)
      → with_context body (cache_with R context true w) ≡ (blocked, cache_with R context true w)
  unfolding with_context
  blocked_when_locked body context w = refl

  locked_cache_blocks :
      (call : CacheCall) (context : Option ℕ) (w : R.World)
      → run_cache call (cache_with R context true w) ≡ (blocked, cache_with R context true w)
  locked_cache_blocks call context w =
      let (body, e) = run_cache-with_context call in e _ ∙ blocked_when_locked body context w

  -- The commands of a pipeline that call one method.
  abbrev pub one_call : CacheCall → CacheManager R → Result (Unit {0}) × CacheManager R
  one_call call c = let (r, d) = run_cache call c in (as_step r, d)

  -- A cache that has no connection returns false from every method and sends nothing; a pipeline on it
  -- does the same and does not run its commands. A pipeline of a connected cache waits for ever, with
  -- the lock held, where its commands call a method of the cache that they are given, since both lock
  -- the same mutex; this needs only that the library takes the opening command.
  pub pipeline_blocks :
      (call : CacheCall) (w : R.World)
      (commands : CacheManager R → Result (Unit {0}) × CacheManager R) (ctx : ℕ)
      → (R.redis_append_command ctx (utf8 "MULTI") w).0 ≡ true
      → (run_cache call (cache_with R none false w) ≡ (ended refused, cache_with R none false w))
        × (pipeline commands (cache_with R none false w)
            ≡ (ended refused, cache_with R none false w))
        × ((pipeline (one_call call) (cache_with R (some ctx) false w)).0 ≡ blocked)
        × ((pipeline (one_call call) (cache_with R (some ctx) false w)).1.locked ≡ true)
  unfolding pipeline after_commands
  pipeline_blocks call w commands ctx h =
      let (body, e) = run_cache-with_context call in
      let waits =
        locked_cache_blocks call (some ctx) (R.redis_append_command ctx (utf8 "MULTI") w).1 in
      (e _ ∙ refused_without body w, refl, rw (h, waits) refl, rw (h, waits) refl)
