-- ===== src/Cache/Pipeline.antt =====
-- server/include/qqchat/cache_manager.hpp: the method template `pipeline`.
use qq_copy.Base.{ℕ, true, false, Option, none, some, if◌then◌else◌}
use qq_copy.Base.Text.{utf8}
use qq_copy.Io.{
  Result, ended, returned, refused, thrown, bad_read, blocked, endless, Io, ◌>>=◌, ◌>>◌, return,
  refuse, call, tell,
}
use qq_copy.Redis.{
  Redis, Reply, reply, Body, reply_string, reply_array, reply_integer, reply_nil, reply_status,
  reply_error, Elements, no_elements, element,
}
use qq_copy.Cache.{CacheManager, CacheMethod}

module _ (R : Redis) where
  open R use {World, free_reply_object, redis_append_command, redis_get_reply}

  unfoldable pub free_elements : Elements → Io World (Unit {0})
  free_elements no_elements = return tt
  free_elements (element r rest) = tell (free_reply_object r) >> free_elements rest

  -- Only an array has elements.
  unfoldable pub free_body : Body → Io World (Unit {0})
  unfolding free_elements
  free_body (reply_array items) = free_elements items
  free_body (reply_string str) = return tt
  free_body (reply_integer n) = return tt
  free_body reply_nil = return tt
  free_body reply_status = return tt
  free_body reply_error = return tt

  unfoldable pub free_all : Option Reply → Io World (Unit {0})
  unfolding free_body
  free_all none = return tt
  free_all (some (reply p body)) = free_body body >> tell (free_reply_object (reply p body))

  -- From `redis_append_command(ctx_, "EXEC")` on.
  unfoldable pub finish_pipeline : ℕ → Io World (Unit {0})
  unfolding free_all
  finish_pipeline ctx = do
    status ← call (redis_append_command ctx (utf8 "EXEC"))
    if status then return tt else refuse
    first ← call (redis_get_reply ctx)
    if first.0 then return tt else (free_all (first.1) >> refuse)
    second ← call (redis_get_reply ctx)
    if second.0 then return tt else (free_all (first.1) >> refuse)
    free_all (first.1)
    free_all (second.1)

module _ {R : Redis} where
  open R use {redis_append_command}

  -- What follows `commands(*this)`. The lock is given up where the method ends.
  unfoldable pub after_commands :
      ℕ → Result (Unit {0}) × CacheManager R → Result (Unit {0}) × CacheManager R
  unfolding finish_pipeline
  after_commands ctx (ended (returned _), c) =
      let (r, w) = finish_pipeline R ctx c.world in
      (ended r, record c { locked = false; world = w })
  after_commands ctx (ended refused, c) =
      let (r, w) = finish_pipeline R ctx c.world in
      (ended r, record c { locked = false; world = w })
  after_commands ctx (ended thrown, c) = (ended thrown, record c { locked = false })
  after_commands ctx (ended bad_read, c) = (ended bad_read, c)
  after_commands ctx (blocked, c) = (blocked, c)
  after_commands ctx (ended endless, c) = (ended endless, c)

  -- `commands` is a function on the cache whose result, if any, is not used.
  unfoldable pub pipeline : CacheMethod R (Unit {0}) → CacheMethod R (Unit {0})
  unfolding after_commands
  pipeline commands c = if c.locked then (blocked, c) else elim c.context [
    | none ↦ (ended refused, c)
    | some ctx ↦
        let (queued, w) = redis_append_command ctx (utf8 "MULTI") c.world in
        if queued
        then after_commands ctx (commands (record c { locked = true; world = w }))
        else (ended refused, record c { world = w })
  ]
