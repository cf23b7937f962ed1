-- ===== src/Database/Users.antt =====
-- server/src/database_pool.cpp: the methods on the table of users. The digest is SHA256 of OpenSSL.
use qq_copy.Base.{
  ℕ, zero, suc, List, [], ◌∷◌, Bool, true, false, Option, none, some, text_beq, if◌then◌else◌,
}
use qq_copy.Base.Int.{ℤ, pos, negsuc}
use qq_copy.Base.Text.{utf8}
use qq_copy.Handlers.{hex}
use qq_copy.Services.{User}
use qq_copy.Mysql.{
  Mysql, text_param, int_param, int_column, text_column, unset, number, Row, unset_row, read_int,
  read_text,
}
use qq_copy.Io.{Io, ◌>>=◌, ◌>>◌, return, refuse, call, tell}
use qq_copy.Mysql.Calls.{select_rows, execute_statement, execute_insert, execute_update}
use qq_copy.Database.{Method, with_connection}
use qq_copy.Database.Rows.{return_found}

-- The free function that is written between the methods.
unfoldable pub sha256 : (List ℕ → List ℕ) → List ℕ → List ℕ
unfolding hex
sha256 digest str = hex (digest str)

-- `if (match) { ... }`
unfoldable pub user_if_matching : {W : Type 0} → User → Row → List ℕ → Bool → Io W (Option User)
user_if_matching user row stored_hash match =
    if match
    then (do
      user_id ← read_int (row 0)
      username ← read_text (row 1)
      return (
          some
            (record user { user_id = user_id; username = username; password_hash = stored_hash })))
    else return none

-- The row of `verify_user`: the user, where the stored hash is the hash of the password.
unfoldable pub matching_user :
    {W : Type 0} → (List ℕ → List ℕ) → List ℕ → User → Bool → Row → Io W (Option User)
unfolding sha256 user_if_matching
matching_user digest password user fetched row =
    if fetched
    then (do
      stored_hash ← read_text (row 2)
      user_if_matching user row stored_hash (text_beq stored_hash (sha256 digest password)))
    else return none

-- The row of `get_security_question`.
unfoldable pub question_row : {W : Type 0} → Bool → Row → Io W (Option (List ℕ × List ℕ))
question_row fetched row =
    if fetched
    then (do
      question ← read_text (row 0)
      answer_hash ← read_text (row 1)
      return (some (question, answer_hash)))
    else return none

-- The row of `get_user_by_id` and `get_user_by_name`, which bind the field `user_id` of the out
-- parameter itself.
unfoldable pub user_variables : User → Row
user_variables user zero = number user.user_id
user_variables user (suc i) = unset

unfoldable pub user_row : {W : Type 0} → User → Bool → Row → Io W (Option User)
user_row user fetched row =
    if fetched
    then (do
      user_id ← read_int (row 0)
      username ← read_text (row 1)
      avatar_url ← read_text (row 2)
      return
          (some (record user { user_id = user_id; username = username; avatar_url = avatar_url })))
    else return none

abbrev pub is_positive : ℤ → Bool
is_positive (pos zero) = false
is_positive (pos (suc n)) = true
is_positive (negsuc n) = false

module _ {M : Mysql} where
  open M use {mysql_stmt_bind_result, mysql_stmt_fetch, mysql_free_result, mysql_stmt_close}

  unfoldable pub verify_user : (List ℕ → List ℕ) → List ℕ → List ℕ → User → Method M User
  unfolding matching_user
  verify_user digest username password user = with_connection λ conn. do
    rows ←
        select_rows M conn
          (utf8 "SELECT user_id, username, password_hash FROM users WHERE username = ?")
          (text_param username ∷ []) (int_column ∷ text_column 64 ∷ text_column 256 ∷ [])
    fetched ← call (mysql_stmt_fetch (rows.0) unset_row)
    match ← matching_user digest password user (fetched.0) (fetched.1)
    tell (mysql_free_result (rows.1))
    tell (mysql_stmt_close (rows.0))
    return_found match

  unfoldable pub register_user : List ℕ → List ℕ → List ℕ → List ℕ → Method M ℤ
  register_user username password_hash security_question security_answer_hash =
      with_connection λ conn.
        execute_insert M conn
          (utf8
            "INSERT INTO users (username, password_hash, security_question, security_answer) VALUES (?, ?, ?, ?)")
          (text_param username
            ∷ text_param password_hash
            ∷ text_param security_question
            ∷ text_param security_answer_hash
            ∷ [])

  unfoldable pub username_exists : List ℕ → Method M (Unit {0})
  username_exists username = with_connection λ conn. do
    stmt ←
        execute_statement M conn (utf8 "SELECT COUNT(*) FROM users WHERE username = ?")
          (text_param username ∷ [])
    tell (mysql_stmt_bind_result stmt (int_column ∷ []))
    fetched ← call (mysql_stmt_fetch stmt (λ i. number (pos 0)))
    tell (mysql_stmt_close stmt)
    count ← read_int (fetched.1 0)
    if is_positive count then return tt else refuse

  unfoldable pub get_security_question : List ℕ → Method M (List ℕ × List ℕ)
  unfolding question_row
  get_security_question username = with_connection λ conn. do
    rows ←
        select_rows M conn
          (utf8 "SELECT security_question, security_answer FROM users WHERE username = ?")
          (text_param username ∷ []) (text_column 256 ∷ text_column 256 ∷ [])
    fetched ← call (mysql_stmt_fetch (rows.0) unset_row)
    found ← question_row (fetched.0) (fetched.1)
    tell (mysql_free_result (rows.1))
    tell (mysql_stmt_close (rows.0))
    return_found found

  unfoldable pub reset_password : List ℕ → List ℕ → Method M (Unit {0})
  reset_password username new_password_hash = with_connection λ conn.
      execute_update M conn (utf8 "UPDATE users SET password_hash = ? WHERE username = ?")
        (text_param new_password_hash ∷ text_param username ∷ [])

  unfoldable pub update_password : ℤ → List ℕ → Method M (Unit {0})
  update_password user_id new_password_hash = with_connection λ conn.
      execute_update M conn (utf8 "UPDATE users SET password_hash = ? WHERE user_id = ?")
        (text_param new_password_hash ∷ int_param user_id ∷ [])

  unfoldable pub get_user_by_id : ℤ → User → Method M User
  unfolding user_row user_variables
  get_user_by_id user_id user = with_connection λ conn. do
    rows ←
        select_rows M conn
          (utf8 "SELECT user_id, username, avatar_url FROM users WHERE user_id = ?")
          (int_param user_id ∷ []) (int_column ∷ text_column 64 ∷ text_column 256 ∷ [])
    fetched ← call (mysql_stmt_fetch (rows.0) (user_variables user))
    found ← user_row user (fetched.0) (fetched.1)
    tell (mysql_free_result (rows.1))
    tell (mysql_stmt_close (rows.0))
    return_found found

  unfoldable pub get_user_by_name : List ℕ → User → Method M User
  unfolding user_row user_variables
  get_user_by_name username user = with_connection λ conn. do
    rows ←
        select_rows M conn
          (utf8 "SELECT user_id, username, avatar_url FROM users WHERE username = ?")
          (text_param username ∷ []) (int_column ∷ text_column 64 ∷ text_column 256 ∷ [])
    fetched ← call (mysql_stmt_fetch (rows.0) (user_variables user))
    found ← user_row user (fetched.0) (fetched.1)
    tell (mysql_free_result (rows.1))
    tell (mysql_stmt_close (rows.0))
    return_found found

  unfoldable pub add_user : List ℕ → List ℕ → Method M (Unit {0})
  add_user username password_hash = with_connection λ conn.
      execute_update M conn (utf8 "INSERT INTO users (username, password_hash) VALUES (?, ?)")
        (text_param username ∷ text_param password_hash ∷ [])
