-- ===== src/Cache.antt =====
-- server/include/qqchat/cache_manager.hpp and server/src/cache_manager.cpp: the context of a
-- CacheManager and its lock, its keys, and how it sends commands and frees the replies.
pub mod Presence
pub mod Counters
pub mod Pipeline
pub mod Calls
pub mod Replies
pub mod Lifetime
pub mod DoubleFree
pub mod Keys
pub mod Arguments
pub mod Locked
use qq_copy.Base.{ℕ, suc, List, [], ◌∷◌, ◌++◌, Bool, true, false, Option, none, some, if◌then◌else◌}
use qq_copy.Base.Int.{ℤ, pos, negsuc}
use qq_copy.Base.Text.{utf8}
use qq_copy.Config.Numbers.{digits}
use qq_copy.Io.{Result, ended, refused, blocked, Io, ◌>>=◌, ◌>>◌, return, refuse, call, tell}
use qq_copy.Redis.{
  Redis, Argument, int_argument, arguments, va_list, Reply, reply, Body, reply_string, reply_array,
  reply_integer, reply_nil, reply_status, reply_error,
}

-- `locked` is the mutex. `world` is the state of the client library and of the server behind it.
pub record CacheManager (R : Redis) : Type 0 where
  pub context : Option ℕ
  pub locked : Bool
  pub world : R.World

-- A cache in this state.
abbrev pub cache_with : (R : Redis) → Option ℕ → Bool → R.World → CacheManager R
cache_with R context locked w = record { context = context; locked = locked; world = w }

-- `std::to_string`
unfoldable pub to_string : ℤ → List ℕ
to_string (pos n) = digits (suc n) n []
to_string (negsuc n) = b'-' ∷ digits (suc (suc n)) (suc n) []

unfoldable pub build_key : List ℕ → ℤ → List ℕ
unfolding to_string
build_key prefix user_id = prefix ++ utf8 ":" ++ to_string user_id

-- The key of a user's entry: `build_key("user", user_id) + name`.
unfoldable pub user_key : ℤ → List ℕ → List ℕ
unfolding build_key
user_key user_id name = build_key (utf8 "user") user_id ++ name

abbrev pub is_error : Reply → Bool
is_error (reply p reply_error) = true
is_error (reply p (reply_string str)) = false
is_error (reply p (reply_array items)) = false
is_error (reply p (reply_integer n)) = false
is_error (reply p reply_nil) = false
is_error (reply p reply_status) = false

-- A method of the cache.
abbrev pub CacheMethod : Redis → Type 0 → Type 0
CacheMethod R A = CacheManager R → Result A × CacheManager R

module _ {R : Redis} where
  open R use {World, redis_connect, redis_free, redis_command}

  unfoldable pub connected : ℤ → Option ℕ × Bool → World → CacheManager R
  connected db (none, good) w = record { context = none; locked = false; world = w }
  connected db (some ctx, false) w = record {
    context = none;
    locked = false;
    world = redis_free ctx w;
  }
  connected db (some ctx, true) w =
      let (_, w2) = redis_command ctx (utf8 "SELECT %d") (arguments (int_argument db ∷ [])) w in
      record { context = some ctx; locked = false; world = w2 }

  -- The constructor.
  unfoldable pub open_cache : List ℕ → ℤ → ℤ → World → CacheManager R
  unfolding connected
  open_cache host port db w = let (made, w2) = redis_connect host port w in connected db made w2

  -- The destructor.
  unfoldable pub close_cache : CacheManager R → CacheManager R
  close_cache c = elim c.context [
    | none ↦ c
    | some ctx ↦ record c { world = redis_free ctx c.world }
  ]

module _ (R : Redis) where
  open R use {World, redis_command, free_reply_object}

  unfoldable pub safe_command : Option ℕ → List ℕ → List Argument → Io World (Option Reply)
  safe_command none format args = return none
  safe_command (some ctx) format args = call (redis_command ctx format (va_list args))

  unfoldable pub free_reply : Option Reply → Io World (Unit {0})
  free_reply none = return tt
  free_reply (some r) = tell (free_reply_object r)

  -- `if (!reply || reply->type == REDIS_REPLY_ERROR) { ... return false; } ... return true;`
  unfoldable pub accept_reply : Option Reply → Io World (Unit {0})
  unfolding free_reply
  accept_reply none = free_reply none >> refuse
  accept_reply (some r) =
      if is_error r then (free_reply (some r) >> refuse) else (free_reply (some r) >> return tt)

  -- A method that sends one command and reports whether it was carried out.
  unfoldable pub write_command : List ℕ → List Argument → ℕ → Io World (Unit {0})
  unfolding safe_command accept_reply
  write_command format args ctx = do r ← safe_command (some ctx) format args; accept_reply r

  -- A method that sends one command and ignores the reply.
  unfoldable pub send_command : List ℕ → List Argument → ℕ → Io World (Unit {0})
  unfolding safe_command free_reply
  send_command format args ctx = do r ← safe_command (some ctx) format args; free_reply r; return tt

  -- `if (!reply) return false;`, and what is read from the reply before it is freed.
  unfoldable pub read_reply : {A : Type 0} → (Body → Io World A) → Option Reply → Io World A
  unfolding free_reply
  read_reply read none = refuse
  read_reply read (some (reply p body)) =
      read body >>= λ a. free_reply (some (reply p body)) >> return a

  -- A method that sends one command and reads the reply.
  unfoldable pub read_command :
      {A : Type 0} → List ℕ → List Argument → (Body → Io World A) → ℕ → Io World A
  unfolding safe_command read_reply
  read_command format args read ctx = do r ← safe_command (some ctx) format args; read_reply read r

module _ {R : Redis} where
  open R use {World}

  -- `std::lock_guard<std::mutex> lock(mutex_); if (!ctx_) return false;` and the rest of a method. The
  -- mutex is not recursive: a second lock by the thread that holds it waits for ever.
  unfoldable pub with_context : {A : Type 0} → (ℕ → Io World A) → CacheMethod R A
  with_context body c = if c.locked then (blocked, c) else elim c.context [
    | none ↦ (ended refused, c)
    | some ctx ↦ let (r, w) = body ctx c.world in (ended r, record c { world = w })
  ]
