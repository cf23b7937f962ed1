-- ===== src/Examples/Stored.antt =====
-- Runs of the theorems on the database pool, on a client library that keeps a number of rows.
use qq_copy.Base.{
  ℕ, zero, suc, ◌+◌, ◌<◌, ◌≤◌, ◌≡◌, ◌≢◌, inl, refl, [], ◌∷◌, ◌++◌, length, Bool, true, false, some,
  arith,
}
use qq_copy.Base.Int.{pos}
use qq_copy.Services.{User, Friend}
use qq_copy.Io.{ended, returned, blocked, endless}
use qq_copy.Mysql.{Mysql, Row, number, chars, unset_row}
use qq_copy.Mysql.Ledger.{watched, books}
use qq_copy.Base.{text_beq}
use qq_copy.Mysql.{read_text, read_int}
use qq_copy.Mysql.Calls.{select_rows}
use qq_copy.Database.{
  DatabasePool, open_pool, close_pool, with_connection, get_connection, borrowed,
}
use qq_copy.Database.Users.{sha256, verify_user}
use qq_copy.Database.Friends.{get_friends}
use qq_copy.Database.Messages.{Message, get_messages}
use qq_copy.Database.Calls.{run_call, call_get_friends, call_add_user, opened}
use qq_copy.Database.Resources.{Settled}
use qq_copy.Database.Lifetime.{pool_uses_library_soundly}
use qq_copy.Database.Queue.{QueueAfter, queue_is_bounded}
use qq_copy.Database.Waiting.{run_calls, calls_never_wait, unreachable_database_blocks}
use qq_copy.Database.Termination.{Finite, row_loops_end}
use qq_copy.Database.Accepted.{IsAccepted, SelectedUser, verified_user_is_stored}
use qq_copy.Examples.{anna, pw, user_anna}

-- The row of the user 7.
abbrev anna_row : Row
anna_row zero = number (pos 7)
anna_row (suc zero) = chars (anna ++ 0 ∷ [])
anna_row (suc (suc i)) = chars (sha256 (λ s. s) pw ++ 0 ∷ [])

abbrev message_row_7 : Row
message_row_7 zero = number (pos 1)
message_row_7 (suc zero) = number (pos 7)
message_row_7 (suc (suc zero)) = number (pos 8)
message_row_7 (suc (suc (suc i))) = chars (pw ++ 0 ∷ [])

abbrev fetch_from : Row → Row × ℕ → (Bool × Row) × (Row × ℕ)
fetch_from row (stored, zero) = ((false, row), (stored, zero))
fetch_from row (stored, suc n) = ((true, stored), (stored, n))

-- The world is the row that every statement gives, and how often; `up` says whether the server takes
-- connections.
abbrev memory : Bool → Mysql
memory up = record {
  World = Row × ℕ;
  mysql_init = λ w. (some 1, w);
  mysql_options = λ conn name w. w;
  mysql_real_connect = λ conn host user pass db port w. (up, w);
  mysql_close = λ conn w. w;
  mysql_ping = λ conn w. (true, w);
  mysql_stmt_init = λ conn w. (some 2, w);
  mysql_stmt_prepare = λ stmt query w. (true, w);
  mysql_stmt_bind_param = λ stmt params w. (true, w);
  mysql_stmt_execute = λ stmt w. (true, w);
  mysql_stmt_insert_id = λ stmt w. (5, w);
  mysql_stmt_result_metadata = λ stmt w. (some 3, w);
  mysql_stmt_bind_result = λ stmt columns w. w;
  mysql_stmt_fetch = λ stmt row w. fetch_from row w;
  mysql_free_result = λ result w. w;
  mysql_stmt_close = λ stmt w. w;
}

abbrev pub users : Mysql
users = memory true

abbrev pub one_user : Row × ℕ
one_user = (anna_row, 1)

-- A pool of one connection, and rows in the library.
abbrev pool_of_one : (M : Mysql) → M.World → DatabasePool M
pool_of_one M w = record {
  host = [];
  port = pos 3306;
  db_name = [];
  user = [];
  password = [];
  connections = 1 ∷ [];
  world = w;
}

-- A pool that the constructor makes.
abbrev opened_pool : (M : Mysql) → M.World → DatabasePool M
opened_pool M w = open_pool [] (pos 3306) [] [] [] (pos 2) w

pool_uses_library_soundly_example :
    Settled users (
      run_call
        (call_get_friends 3 (pos 7) [])
        (opened_pool (watched users) (one_user, books [] [] [])))
    × ((close_pool (opened_pool (watched users) (one_user, books [] [] []))).world.1
        ≡ books [] [] [])
pool_uses_library_soundly_example =
    pool_uses_library_soundly users (pos 2) one_user
      (opened_pool (watched users) (one_user, books [] [] [])) (opened [] (pos 3306) [] [] [])
      (call_get_friends 3 (pos 7) [])

queue_is_bounded_example :
    (length (opened_pool users one_user).connections ≤ 2)
    × QueueAfter users
        (length (opened_pool users one_user).connections)
        (run_call (call_get_friends 3 (pos 7) []) (opened_pool users one_user))
queue_is_bounded_example =
    queue_is_bounded users (pos 2) one_user (opened_pool users one_user)
      (opened [] (pos 3306) [] [] []) (call_get_friends 3 (pos 7) [])

calls_never_wait_example :
    ((run_call
        (call_get_friends 3 (pos 7) [])
        (run_calls (call_add_user anna pw ∷ []) (pool_of_one users one_user))).0
      ≢ blocked)
    × (length (run_calls (call_add_user anna pw ∷ []) (pool_of_one users one_user)).connections ≡ 1)
calls_never_wait_example =
    calls_never_wait users (λ p conn w. inl refl) (pool_of_one users one_user)
      (call_add_user anna pw ∷ []) (call_get_friends 3 (pos 7) []) (omega arith)

unreachable_database_blocks_example :
    ((opened_pool (memory false) one_user).connections ≡ [])
    × (run_call (call_add_user anna pw) (opened_pool (memory false) one_user)
        ≡ (blocked, opened_pool (memory false) one_user))
unreachable_database_blocks_example =
    unreachable_database_blocks (memory false) (λ conn host user pass db port w. refl) [] (pos 3306)
      [] [] [] (pos 2) one_user (call_add_user anna pw)

fetch_fewer :
    (row : Row) (w : Row × ℕ) → (fetch_from row w).0.0 ≡ true → (fetch_from row w).1.1 < w.1
fetch_fewer row (stored, zero) e = absurd (cc)
fetch_fewer row (stored, suc n) e = omega arith

users-Finite : Finite users
users-Finite = record { rows = λ stmt w. w.1; fetch-fewer = λ stmt row w e. fetch_fewer row w e }

row_loops_end_example :
    ((fuel : ℕ) × ((more : ℕ)
        → (get_friends (fuel + more) (pos 7) [] (pool_of_one users one_user)).0 ≢ ended endless))
    × ((fuel : ℕ) × ((more : ℕ)
          → (get_messages (fuel + more) (pos 7) (pos 8) [] (pos 50) (pool_of_one users one_user)).0
            ≢ ended endless))
row_loops_end_example =
    row_loops_end users users-Finite (pos 7) (pos 8) [] [] (pos 50) (pool_of_one users one_user)

abbrev accepted_anna : User
accepted_anna = record user_anna {
  user_id = pos 7;
  username = anna;
  password_hash = sha256 (λ s. s) pw;
}

anna_accepted :
    (verify_user (λ s. s) anna pw user_anna (pool_of_one users one_user)).0
    ≡ ended (returned accepted_anna)
unfolding verify_user with_connection select_rows read_text text_beq read_int
anna_accepted = refl

verified_user_is_stored_example :
    (conn : ℕ) × (stmt : ℕ) × (result : ℕ) × (w : Row × ℕ) × ((get_connection
        (pool_of_one users one_user)).0
      ≡ borrowed conn)
    × SelectedUser users conn anna
        (get_connection (pool_of_one users one_user)).1.world
        stmt
        result
        w
    × ((fetch_from unset_row w).0.0 ≡ true)
    × IsAccepted (λ s. s) pw (fetch_from unset_row w).0.1 accepted_anna
verified_user_is_stored_example =
    verified_user_is_stored users (λ s. s) anna pw user_anna (pool_of_one users one_user)
      accepted_anna anna_accepted

abbrev listed_friend : Friend
listed_friend = record {
  user_id = pos 7;
  friend_id = pos 7;
  friend_name = anna;
  avatar_url = sha256 (λ s. s) pw;
}

abbrev listed_message : Message
listed_message = record {
  msg_id = pos 1;
  from_id = pos 7;
  to_id = pos 8;
  content = pw;
  timestamp = pw;
}
