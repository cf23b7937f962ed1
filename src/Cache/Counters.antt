-- ===== src/Cache/Counters.antt =====
-- server/src/cache_manager.cpp: the sets of friends and the counts of unread messages.
use qq_copy.Base.{ℕ, List, [], ◌∷◌, ◌++◌, Option, none, some}
use qq_copy.Base.Int.{ℤ, pos}
use qq_copy.Base.Text.{utf8}
use qq_copy.Config.{stoi}
use qq_copy.Io.{Io, ◌>>=◌, ◌>>◌, return, refuse, throw}
use qq_copy.Redis.{
  Redis, string_argument, int_argument, Reply, reply, Body, reply_string, reply_array,
  reply_integer, reply_nil, reply_status, reply_error, Elements, no_elements, element,
}
use qq_copy.Cache.{
  CacheMethod, user_key, safe_command, free_reply, write_command, send_command, read_command,
  with_context,
}

unfoldable pub number_or_throw : {W : Type 0} → Option (ℤ × List ℕ) → Io W ℤ
number_or_throw none = throw
number_or_throw (some (n, rest)) = return n

-- `std::stoi`, with its exceptions; it ignores what stands behind the number.
unfoldable pub stoi_or_throw : {W : Type 0} → List ℕ → Io W ℤ
unfolding number_or_throw
stoi_or_throw str = number_or_throw (stoi str)

-- The loop of `get_friends`: it skips the elements that are no strings.
unfoldable pub push_friends : {W : Type 0} → Elements → List ℤ → Io W (List ℤ)
unfolding stoi_or_throw
push_friends no_elements friends = return friends
push_friends (element (reply p (reply_string str)) rest) friends =
    stoi_or_throw str >>= λ n. push_friends rest (friends ++ n ∷ [])
push_friends (element (reply p (reply_array items)) rest) friends = push_friends rest friends
push_friends (element (reply p (reply_integer n)) rest) friends = push_friends rest friends
push_friends (element (reply p reply_nil) rest) friends = push_friends rest friends
push_friends (element (reply p reply_status) rest) friends = push_friends rest friends
push_friends (element (reply p reply_error) rest) friends = push_friends rest friends

abbrev pub elements_of : Reply → Option Elements
elements_of (reply p (reply_array items)) = some items
elements_of (reply p (reply_string str)) = none
elements_of (reply p (reply_integer n)) = none
elements_of (reply p reply_nil) = none
elements_of (reply p reply_status) = none
elements_of (reply p reply_error) = none

-- What `get_unread_count` reads.
unfoldable pub count_of : {W : Type 0} → Body → Io W (Option ℤ)
unfolding stoi_or_throw
count_of (reply_string str) = stoi_or_throw str >>= λ n. return (some n)
count_of reply_nil = return (some (pos 0))
count_of (reply_array items) = return none
count_of (reply_integer n) = return none
count_of reply_status = return none
count_of reply_error = return none

abbrev pub return_count : {W : Type 0} → Option ℤ → Io W ℤ
return_count none = refuse
return_count (some n) = return n

module _ (R : Redis) where
  open R use {World}

  unfoldable pub listed_friends : Reply → Option Elements → List ℤ → Io World (List ℤ)
  unfolding free_reply push_friends
  listed_friends r none friends = free_reply R (some r) >> refuse
  listed_friends r (some items) friends =
      push_friends items friends >>= λ all. free_reply R (some r) >> return all

  -- `if (!reply || reply->type != REDIS_REPLY_ARRAY) { ... return false; }` and the loop.
  unfoldable pub friends_of : Option Reply → List ℤ → Io World (List ℤ)
  unfolding listed_friends
  friends_of none friends = free_reply R none >> refuse
  friends_of (some r) friends = listed_friends r (elements_of r) friends

module _ {R : Redis} where
  unfoldable pub add_friend : ℤ → ℤ → CacheMethod R (Unit {0})
  add_friend user_id friend_id = with_context (
      write_command R (utf8 "SADD %s %d")
        (string_argument (user_key user_id (utf8 ":friends")) ∷ int_argument friend_id ∷ []))

  unfoldable pub remove_friend : ℤ → ℤ → CacheMethod R (Unit {0})
  remove_friend user_id friend_id = with_context (
      write_command R (utf8 "SREM %s %d")
        (string_argument (user_key user_id (utf8 ":friends")) ∷ int_argument friend_id ∷ []))

  unfoldable pub get_friends : ℤ → List ℤ → CacheMethod R (List ℤ)
  unfolding friends_of
  get_friends user_id friends = with_context λ ctx.
      safe_command R (some ctx) (utf8 "SMEMBERS %s")
        (string_argument (user_key user_id (utf8 ":friends")) ∷ [])
      >>= λ r. friends_of R r friends

  unfoldable pub clear_friends : ℤ → CacheMethod R (Unit {0})
  clear_friends user_id =
      with_context
        (send_command R (utf8 "DEL %s") (string_argument (user_key user_id (utf8 ":friends")) ∷ []))

  unfoldable pub increment_unread : ℤ → CacheMethod R (Unit {0})
  increment_unread user_id =
      with_context (
        write_command R (utf8 "INCR %s") (string_argument (user_key user_id (utf8 ":unread")) ∷ []))

  unfoldable pub decrement_unread : ℤ → CacheMethod R (Unit {0})
  decrement_unread user_id =
      with_context (
        write_command R (utf8 "DECR %s") (string_argument (user_key user_id (utf8 ":unread")) ∷ []))

  unfoldable pub get_unread_count : ℤ → CacheMethod R ℤ
  unfolding count_of
  get_unread_count user_id = with_context λ ctx.
      read_command R (utf8 "GET %s") (string_argument (user_key user_id (utf8 ":unread")) ∷ [])
        count_of ctx
      >>= return_count

  unfoldable pub clear_unread : ℤ → CacheMethod R (Unit {0})
  clear_unread user_id =
      with_context (
        write_command R (utf8 "SET %s 0")
          (string_argument (user_key user_id (utf8 ":unread")) ∷ []))
