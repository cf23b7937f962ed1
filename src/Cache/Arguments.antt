-- ===== src/Cache/Arguments.antt =====
-- What the methods of CacheManager hand to `redis_command` (server/src/cache_manager.cpp).
use qq_copy.Base.{
  ℕ, ◌≡◌, refl, ap, ◌∙◌, List, ◌∷◌, Bool, true, false, Option, none, some, if◌then◌else◌,
}
use qq_copy.Base.Int.{ℤ}
use qq_copy.Io.{
  Io, Exit, returned, refused, thrown, bad_read, endless, continue, return, refuse, ◌>>=◌, ◌>>◌,
}
use qq_copy.Redis.{Redis, Argument, Arguments, va_list, Reply, reply, Body, Elements}
use qq_copy.Cache.{
  is_error, accept_reply, free_reply, read_reply, write_command, send_command, read_command,
  safe_command, with_context, cache_with,
}
use qq_copy.Cache.Presence.{
  set_online, is_online, get_connection_id, set_connection_id, remove_connection_id, set_ttl,
  delete_key, exists_key, return_if, return_string,
}
use qq_copy.Cache.Counters.{
  add_friend, remove_friend, get_friends, clear_friends, increment_unread, decrement_unread,
  get_unread_count, clear_unread, return_count, push_friends, listed_friends, friends_of,
  elements_of,
}
use qq_copy.Cache.Calls.{
  CacheCall, run_cache, call_set_online, call_is_online, call_get_connection_id,
  call_set_connection_id, call_remove_connection_id, call_set_ttl, call_delete_key, call_exists_key,
  call_add_friend, call_remove_friend, call_get_friends, call_clear_friends, call_increment_unread,
  call_decrement_unread, call_get_unread_count, call_clear_unread,
}
use qq_copy.Cache.Replies.{Quiet, push_friends-Quiet, count_of-Quiet}

-- The formats and arguments of the commands, newest first.
abbrev pub Commands : Type 0
Commands = List (List ℕ × Arguments)

-- A library that notes the commands it gets.
abbrev pub noted : Redis → Redis
noted R = record {
  World = R.World × Commands;
  redis_connect = λ host port s. let (made, w) = R.redis_connect host port s.0 in (made, (w, s.1));
  redis_free = λ ctx s. (R.redis_free ctx s.0, s.1);
  redis_command = λ ctx format args s.
      let (r, w) = R.redis_command ctx format args s.0 in (r, (w, (format, args) ∷ s.1));
  free_reply_object = λ r s. (R.free_reply_object r s.0, s.1);
  redis_append_command =
      λ ctx format s. let (ok, w) = R.redis_append_command ctx format s.0 in (ok, (w, s.1));
  redis_get_reply = λ ctx s. let (got, w) = R.redis_get_reply ctx s.0 in (got, (w, s.1));
}

-- One more command, whose arguments are a `va_list`.
abbrev pub OneVaList : Commands → Commands → Type 0
OneVaList before after =
    (format : List ℕ) × (args : List Argument) × (after ≡ (format, va_list args) ∷ before)

continue-same :
    {W A B : Type 0} (r : Exit A × (W × Commands)) (f : A → Io (W × Commands) B) (l : Commands)
    → r.1.1 ≡ l
    → ((a : A) (s : W × Commands) → (f a s).1.1 ≡ s.1)
    → (continue r f).1.1 ≡ l
continue-same (returned a, s) f l h k = k a s ∙ h
continue-same (refused, s) f l h k = h
continue-same (thrown, s) f l h k = h
continue-same (bad_read, s) f l h k = h
continue-same (endless, s) f l h k = h

Quiet-same :
    {W A : Type 0} (s : W × Commands) (r : Exit A × (W × Commands)) → Quiet true s r → r.1.1 ≡ s.1
Quiet-same s (returned a, v) h = ap (λ t. t.1) h
Quiet-same s (thrown, v) h = ap (λ t. t.1) h.1
Quiet-same s (refused, v) h = absurd h
Quiet-same s (bad_read, v) h = absurd h
Quiet-same s (endless, v) h = absurd h

module _ (R : Redis) where
  -- An action that sends no command.
  abbrev Silent : {A : Type 0} → Io (R.World × Commands) A → Type 0
  Silent m = (s : R.World × Commands) → (m s).1.1 ≡ s.1

  -- A use of the context that sends one.
  abbrev Sends : {A : Type 0} → (ℕ → Io (R.World × Commands) A) → Type 0
  Sends body = (ctx : ℕ) (s : R.World × Commands) → OneVaList s.1 (body ctx s).1.1

  free_reply-Silent : (r : Option Reply) → Silent (free_reply (noted R) r)
  unfolding free_reply
  free_reply-Silent none s = refl
  free_reply-Silent (some r) s = refl

  accept_reply-Silent : (r : Option Reply) → Silent (accept_reply (noted R) r)
  unfolding accept_reply free_reply
  accept_reply-Silent none s = refl
  accept_reply-Silent (some r) s = either (is_error r)
    where
      either :
          (error : Bool)
          → ((if error
                then (free_reply (noted R) (some r) >> refuse)
                else (free_reply (noted R) (some r) >> return tt))
              s).1.1
            ≡ s.1
      either true = refl
      either false = refl

  read_reply-Silent :
      {A : Type 0} (read : Body → Io (R.World × Commands) A)
      → ((body : Body) (s : R.World × Commands) → Quiet true s (read body s))
      → (r : Option Reply) → Silent (read_reply (noted R) read r)
  unfolding read_reply free_reply
  read_reply-Silent read quiet none s = refl
  read_reply-Silent read quiet (some (reply p body)) s =
      continue-same (read body s) _ s.1 (Quiet-same s (read body s) (quiet body s)) (λ a v. refl)

  friends_of-Silent :
      (r : Option Reply) (friends : List ℤ) → Silent (friends_of (noted R) r friends)
  unfolding friends_of listed_friends free_reply
  friends_of-Silent none friends s = refl
  friends_of-Silent (some r) friends s = listed (elements_of r)
    where
      listed : (items : Option Elements) → (listed_friends (noted R) r items friends s).1.1 ≡ s.1
      listed none = refl
      listed (some items) =
          continue-same (push_friends items friends s) _ s.1
            (Quiet-same s (push_friends items friends s) (push_friends-Quiet items friends s))
            (λ a v. refl)

  return_if-Silent : (b : Bool) → Silent (return_if b)
  return_if-Silent true s = refl
  return_if-Silent false s = refl

  return_string-Silent : (o : Option (List ℕ)) → Silent (return_string o)
  return_string-Silent none s = refl
  return_string-Silent (some str) s = refl

  return_count-Silent : (o : Option ℤ) → Silent (return_count o)
  return_count-Silent none s = refl
  return_count-Silent (some n) s = refl

  command-Sends :
      {A : Type 0} (format : List ℕ) (args : List Argument)
      (rest : Option Reply → Io (R.World × Commands) A)
      → ((r : Option Reply) → Silent (rest r))
      → Sends (λ ctx. safe_command (noted R) (some ctx) format args >>= rest)
  unfolding safe_command
  command-Sends format args rest silent ctx s =
      (format, args, silent (R.redis_command ctx format (va_list args) s.0).0 _)

  write_command-Sends :
      (format : List ℕ) (args : List Argument) → Sends (write_command (noted R) format args)
  unfolding write_command
  write_command-Sends format args =
      command-Sends format args (accept_reply (noted R)) accept_reply-Silent

  send_command-Sends :
      (format : List ℕ) (args : List Argument) → Sends (send_command (noted R) format args)
  unfolding send_command
  send_command-Sends format args =
      command-Sends format args (λ r. free_reply (noted R) r >> return tt)
        (λ r s.
          continue-same (free_reply (noted R) r s) _ s.1 (free_reply-Silent r s) (λ a v. refl))

  read_command-Sends :
      {A B : Type 0} (format : List ℕ) (args : List Argument)
      (read : Body → Io (R.World × Commands) A) (finish : A → Io (R.World × Commands) B)
      → ((body : Body) (s : R.World × Commands) → Quiet true s (read body s))
      → ((a : A) → Silent (finish a))
      → Sends (λ ctx. read_command (noted R) format args read ctx >>= finish)
  unfolding read_command
  read_command-Sends format args read finish quiet silent ctx s =
      let (f, a, e) =
        command-Sends format args (read_reply (noted R) read) (read_reply-Silent read quiet) ctx
          s in
      (f, a, continue-same (read_command (noted R) format args read ctx s) finish _ e silent)

  with_context-Sends :
      {A : Type 0} (body : ℕ → Io (R.World × Commands) A)
      → Sends body
      → (ctx : ℕ) (s : R.World × Commands)
      → OneVaList s.1 (with_context body (cache_with (noted R) (some ctx) false s)).1.world.1
  unfolding with_context
  with_context-Sends body sends ctx s = sends ctx s

  -- Each method of a connected cache that is not locked sends one command, and hands to the variadic
  -- `redis_command` one object of type `va_list` in place of the key and the other arguments, which
  -- its format asks for.
  pub methods_pass_va_list :
      (call : CacheCall) (ctx : ℕ) (w : R.World) (before : Commands)
      → OneVaList before
          (run_cache call (cache_with (noted R) (some ctx) false (w, before))).1.world.1
  unfolding run_cache set_online is_online get_connection_id set_connection_id remove_connection_id
      set_ttl delete_key exists_key add_friend remove_friend get_friends clear_friends
      increment_unread decrement_unread get_unread_count clear_unread
  methods_pass_va_list (call_set_online a b) ctx w l =
      with_context-Sends _ (write_command-Sends _ _) ctx (w, l)
  methods_pass_va_list (call_is_online a) ctx w l =
      with_context-Sends _ (read_command-Sends _ _ _ _ (λ body s. refl) return_if-Silent) ctx (w, l)
  methods_pass_va_list (call_get_connection_id a) ctx w l =
      with_context-Sends _ (read_command-Sends _ _ _ _ (λ body s. refl) return_string-Silent) ctx
        (w, l)
  methods_pass_va_list (call_set_connection_id a b) ctx w l =
      with_context-Sends _ (write_command-Sends _ _) ctx (w, l)
  methods_pass_va_list (call_remove_connection_id a) ctx w l =
      with_context-Sends _ (send_command-Sends _ _) ctx (w, l)
  methods_pass_va_list (call_set_ttl a b) ctx w l =
      with_context-Sends _ (write_command-Sends _ _) ctx (w, l)
  methods_pass_va_list (call_delete_key a) ctx w l =
      with_context-Sends _ (send_command-Sends _ _) ctx (w, l)
  methods_pass_va_list (call_exists_key a) ctx w l =
      with_context-Sends _ (read_command-Sends _ _ _ _ (λ body s. refl) return_if-Silent) ctx (w, l)
  methods_pass_va_list (call_add_friend a b) ctx w l =
      with_context-Sends _ (write_command-Sends _ _) ctx (w, l)
  methods_pass_va_list (call_remove_friend a b) ctx w l =
      with_context-Sends _ (write_command-Sends _ _) ctx (w, l)
  methods_pass_va_list (call_get_friends a b) ctx w l =
      with_context-Sends _ (command-Sends _ _ _ (λ r. friends_of-Silent r b)) ctx (w, l)
  methods_pass_va_list (call_clear_friends a) ctx w l =
      with_context-Sends _ (send_command-Sends _ _) ctx (w, l)
  methods_pass_va_list (call_increment_unread a) ctx w l =
      with_context-Sends _ (write_command-Sends _ _) ctx (w, l)
  methods_pass_va_list (call_decrement_unread a) ctx w l =
      with_context-Sends _ (write_command-Sends _ _) ctx (w, l)
  methods_pass_va_list (call_get_unread_count a) ctx w l =
      with_context-Sends _ (read_command-Sends _ _ _ _ count_of-Quiet return_count-Silent) ctx
        (w, l)
  methods_pass_va_list (call_clear_unread a) ctx w l =
      with_context-Sends _ (write_command-Sends _ _) ctx (w, l)
