-- ===== src/Cache/Presence.antt =====
-- server/src/cache_manager.cpp: who is online, and on which connection; keys by name.
use qq_copy.Base.{ℕ, List, [], ◌∷◌, Bool, true, false, Option, none, some, ◌==◌, if◌then◌else◌}
use qq_copy.Base.Int.{ℤ, pos, negsuc}
use qq_copy.Base.Text.{utf8}
use qq_copy.Io.{Io, ◌>>=◌, return, refuse}
use qq_copy.Redis.{
  Redis, string_argument, int_argument, Body, reply_string, reply_array, reply_integer, reply_nil,
  reply_status, reply_error,
}
use qq_copy.Cache.{CacheMethod, user_key, write_command, send_command, read_command, with_context}

abbrev pub online_flag : Bool → ℤ
online_flag true = pos 1
online_flag false = pos 0

-- A string of the one character '1'.
abbrev pub is_one : List ℕ → Bool
is_one [] = false
is_one (c ∷ []) = c == b'1'
is_one (c ∷ d ∷ str) = false

abbrev pub says_online : Body → Bool
says_online (reply_string str) = is_one str
says_online (reply_array items) = false
says_online (reply_integer n) = false
says_online reply_nil = false
says_online reply_status = false
says_online reply_error = false

abbrev pub string_of : Body → Option (List ℕ)
string_of (reply_string str) = some str
string_of (reply_array items) = none
string_of (reply_integer n) = none
string_of reply_nil = none
string_of reply_status = none
string_of reply_error = none

abbrev pub says_exists : Body → Bool
says_exists (reply_string str) = false
says_exists (reply_array items) = false
says_exists (reply_integer (pos n)) = if n == 0 then false else true
says_exists (reply_integer (negsuc n)) = false
says_exists reply_nil = false
says_exists reply_status = false
says_exists reply_error = false

-- `return test;` where a false result is what a failure gives too
abbrev pub return_if : {W : Type 0} → Bool → Io W (Unit {0})
return_if test = if test then return tt else refuse

abbrev pub return_string : {W : Type 0} → Option (List ℕ) → Io W (List ℕ)
return_string none = refuse
return_string (some str) = return str

module _ {R : Redis} where
  unfoldable pub set_online : ℤ → Bool → CacheMethod R (Unit {0})
  set_online user_id online = with_context (
      write_command R (utf8 "SET %s %d") (
        string_argument (user_key user_id (utf8 ":online"))
        ∷ int_argument (online_flag online)
        ∷ []))

  unfoldable pub is_online : ℤ → CacheMethod R (Unit {0})
  is_online user_id = with_context λ ctx.
      read_command R (utf8 "GET %s") (string_argument (user_key user_id (utf8 ":online")) ∷ [])
        (λ body. return (says_online body)) ctx
      >>= return_if

  unfoldable pub get_connection_id : ℤ → CacheMethod R (List ℕ)
  get_connection_id user_id = with_context λ ctx.
      read_command R (utf8 "GET %s") (string_argument (user_key user_id (utf8 ":conn")) ∷ [])
        (λ body. return (string_of body)) ctx
      >>= return_string

  unfoldable pub set_connection_id : ℤ → List ℕ → CacheMethod R (Unit {0})
  set_connection_id user_id conn_id = with_context (
      write_command R (utf8 "SET %s %s")
        (string_argument (user_key user_id (utf8 ":conn")) ∷ string_argument conn_id ∷ []))

  unfoldable pub remove_connection_id : ℤ → CacheMethod R (Unit {0})
  remove_connection_id user_id =
      with_context
        (send_command R (utf8 "DEL %s") (string_argument (user_key user_id (utf8 ":conn")) ∷ []))

  unfoldable pub set_ttl : List ℕ → ℤ → CacheMethod R (Unit {0})
  set_ttl key seconds =
      with_context
        (write_command R (utf8 "EXPIRE %s %d") (string_argument key ∷ int_argument seconds ∷ []))

  unfoldable pub delete_key : List ℕ → CacheMethod R (Unit {0})
  delete_key key = with_context (send_command R (utf8 "DEL %s") (string_argument key ∷ []))

  unfoldable pub exists_key : List ℕ → CacheMethod R (Unit {0})
  exists_key key = with_context λ ctx.
      read_command R (utf8 "EXISTS %s") (string_argument key ∷ [])
        (λ body. return (says_exists body)) ctx
      >>= return_if
