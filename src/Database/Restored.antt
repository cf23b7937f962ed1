-- ===== src/Database/Restored.antt =====
-- The books over each method of DatabasePool (server/src/database_pool.cpp).
use qq_copy.Base.{ℕ, ◌≡◌, refl, List, [], ◌∷◌, Bool, true, Option}
use qq_copy.Base.Int.{pos}
use qq_copy.Io.{Io, ◌>>=◌, ◌>>◌, return, call, tell}
use qq_copy.Mysql.{Mysql, Param, Column, Row, int_column, number, unset_row}
use qq_copy.Mysql.Calls.{select_rows, execute_update, execute_insert}
use qq_copy.Mysql.Ledger.{Ledger, watched, books, member, use_statement-books, end_statement-books}
use qq_copy.Mysql.Bookkeeping.{
  Keeps, Keeps-bind, Keeps-return, Keeps-call, Keeps-tell, Keeps-read_int, Keeps-success,
  Keeps-execute_statement, Keeps-select_rows, Keeps-execute_update, Keeps-execute_insert,
}
use qq_copy.Database.{DatabasePool}
use qq_copy.Database.Rows.{fetch_rows, return_found}
use qq_copy.Database.Bodies.{
  Keeps-friend_row, Keeps-message_row, Keeps-matching_user, Keeps-question_row, Keeps-user_row,
  Keeps-return_found, Keeps-fetch_rows, Keeps-freed,
}
use qq_copy.Database.Resources.{Tidy, Settled, Restores, with_connection-Settled}
use qq_copy.Database.Users.{
  is_positive, matching_user, question_row, user_row, verify_user, register_user, username_exists,
  get_security_question, reset_password, update_password, get_user_by_id, get_user_by_name,
  add_user,
}
use qq_copy.Database.Friends.{friend_row, get_friends, add_friend, delete_friend}
use qq_copy.Database.Messages.{message_row, reverse, send_message, get_messages}
use qq_copy.Database.Calls.{
  DatabaseCall, run_call, call_verify_user, call_register_user, call_username_exists,
  call_get_security_question, call_reset_password, call_update_password, call_get_user_by_id,
  call_get_user_by_name, call_add_user, call_get_friends, call_add_friend, call_delete_friend,
  call_send_message, call_get_messages,
}

module _ (M : Mysql) where
  -- A select of one row.
  Keeps-found :
      {A : Type 0} (C : List ℕ) (conn : ℕ) (query : List ℕ) (params : List Param)
      (columns : List Column) (row : Row) (read : Bool → Row → Io (M.World × Ledger) (Option A))
      → member conn C ≡ true
      → ((S R : List ℕ) (fetched : Bool) (row' : Row)
          → Keeps (books C S R) (λ _. books C S R) (books C [] []) (read fetched row'))
      → Keeps
          (books C [] [])
          (λ _. books C [] [])
          (books C [] [])
          (select_rows (watched M) conn query params columns >>= λ rows.
            call ((watched M).mysql_stmt_fetch rows.0 row) >>= λ fetched.
            read fetched.0 fetched.1 >>= λ found.
            tell ((watched M).mysql_free_result rows.1)
            >> (tell ((watched M).mysql_stmt_close rows.0) >> return_found found))
  Keeps-found C conn query params columns row read m keep =
      Keeps-bind (λ rows. books C (rows.0 ∷ []) (rows.1 ∷ []))
        (Keeps-select_rows M C [] [] conn query params columns m)
        (λ rows.
          Keeps-bind (λ _. books C (rows.0 ∷ []) (rows.1 ∷ []))
            (Keeps-call ((watched M).mysql_stmt_fetch rows.0 row) (λ w. use_statement-books rows.0))
            (λ fetched.
              Keeps-bind (λ _. books C (rows.0 ∷ []) (rows.1 ∷ []))
                (keep (rows.0 ∷ []) (rows.1 ∷ []) fetched.0 fetched.1)
                (λ found. Keeps-freed M rows.0 rows.1 _ (Keeps-return_found found refl))))

  -- A select of many rows.
  Keeps-listed :
      {A B : Type 0} (C : List ℕ) (conn : ℕ) (query : List ℕ) (params : List Param)
      (columns : List Column) (fuel : ℕ) (item : Row → Io (M.World × Ledger) A) (items : List A)
      (result : List A → B)
      → member conn C ≡ true
      → ((S R : List ℕ) (row : Row)
          → Keeps (books C S R) (λ _. books C S R) (books C [] []) (item row))
      → Keeps
          (books C [] [])
          (λ _. books C [] [])
          (books C [] [])
          (select_rows (watched M) conn query params columns >>= λ rows.
            fetch_rows (watched M) fuel rows.0 item unset_row items >>= λ all.
            tell ((watched M).mysql_free_result rows.1)
            >> (tell ((watched M).mysql_stmt_close rows.0)
                >> return {W = M.World × Ledger} (result all)))
  Keeps-listed C conn query params columns fuel item items result m keep =
      Keeps-bind (λ rows. books C (rows.0 ∷ []) (rows.1 ∷ []))
        (Keeps-select_rows M C [] [] conn query params columns m)
        (λ rows.
          Keeps-bind (λ _. books C (rows.0 ∷ []) (rows.1 ∷ []))
            (Keeps-fetch_rows M (books C [] []) rows.0 item (keep (rows.0 ∷ []) (rows.1 ∷ [])) fuel
              unset_row items)
            (λ all. Keeps-freed M rows.0 rows.1 _ (Keeps-return (result all) refl)))

  update-Restores :
      (query : List ℕ) (params : List Param)
      → Restores M (λ conn. execute_update (watched M) conn query params)
  update-Restores query params C conn m = Keeps-execute_update M C [] [] conn query params m

  insert-Restores :
      (query : List ℕ) (params : List Param)
      → Restores M (λ conn. execute_insert (watched M) conn query params)
  insert-Restores query params C conn m = Keeps-execute_insert M C [] [] conn query params m

  username_exists-Settled :
      (username : List ℕ) (p : DatabasePool (watched M))
      → Tidy M p
      → Settled M (username_exists username p)
  unfolding username_exists
  username_exists-Settled username = with_connection-Settled M _ λ C conn m.
      Keeps-bind (λ stmt. books C (stmt ∷ []) []) (Keeps-execute_statement M C [] [] conn _ _ m)
        (λ stmt.
          Keeps-bind (λ _. books C (stmt ∷ []) [])
            (Keeps-tell ((watched M).mysql_stmt_bind_result stmt (int_column ∷ []))
              (λ w. use_statement-books stmt))
            (λ _.
              Keeps-bind (λ _. books C (stmt ∷ []) [])
                (Keeps-call ((watched M).mysql_stmt_fetch stmt (λ i. number (pos 0)))
                  (λ w. use_statement-books stmt))
                (λ fetched.
                  Keeps-bind (λ _. books C [] [])
                    (Keeps-tell ((watched M).mysql_stmt_close stmt) (λ w. end_statement-books stmt))
                    (λ _.
                      Keeps-bind (λ _. books C [] []) (Keeps-read_int (fetched.1 0) refl)
                        (λ count. Keeps-success M C [] [] (is_positive count) tt)))))

  -- Every method leaves a pool tidy that was tidy, whatever the library answers.
  pub run_call-Settled :
      (c : DatabaseCall) (p : DatabasePool (watched M)) → Tidy M p → Settled M (run_call c p)
  unfolding run_call verify_user register_user get_security_question reset_password update_password
      get_user_by_id get_user_by_name add_user get_friends add_friend delete_friend send_message
      get_messages
  run_call-Settled (call_verify_user digest username password user) =
      with_connection-Settled M _ (λ C conn m.
        Keeps-found C conn _ _ _ _ (matching_user digest password user) m
          (λ S R fetched row. Keeps-matching_user digest password user fetched row refl))
  run_call-Settled (call_register_user username hash question answer_hash) =
      with_connection-Settled M _ (insert-Restores _ _)
  run_call-Settled (call_username_exists username) = username_exists-Settled username
  run_call-Settled (call_get_security_question username) = with_connection-Settled M _ (λ C conn m.
      Keeps-found C conn _ _ _ _ question_row m
        (λ S R fetched row. Keeps-question_row fetched row refl))
  run_call-Settled (call_reset_password username hash) =
      with_connection-Settled M _ (update-Restores _ _)
  run_call-Settled (call_update_password user_id hash) =
      with_connection-Settled M _ (update-Restores _ _)
  run_call-Settled (call_get_user_by_id user_id user) = with_connection-Settled M _ (λ C conn m.
      Keeps-found C conn _ _ _ _ (user_row user) m
        (λ S R fetched row. Keeps-user_row user fetched row refl))
  run_call-Settled (call_get_user_by_name username user) = with_connection-Settled M _ (λ C conn m.
      Keeps-found C conn _ _ _ _ (user_row user) m
        (λ S R fetched row. Keeps-user_row user fetched row refl))
  run_call-Settled (call_add_user username hash) = with_connection-Settled M _ (update-Restores _ _)
  run_call-Settled (call_get_friends fuel user_id friends) =
      with_connection-Settled M _ (λ C conn m.
        Keeps-listed C conn _ _ _ fuel (friend_row user_id) friends (λ all. all) m
          (λ S R row. Keeps-friend_row user_id row refl))
  run_call-Settled (call_add_friend user_id friend_id) =
      with_connection-Settled M _ (update-Restores _ _)
  run_call-Settled (call_delete_friend user_id friend_id) =
      with_connection-Settled M _ (update-Restores _ _)
  run_call-Settled (call_send_message from_id to_id content) =
      with_connection-Settled M _ (insert-Restores _ _)
  run_call-Settled (call_get_messages fuel user_id friend_id messages limit) =
      with_connection-Settled M _ (λ C conn m.
        Keeps-listed C conn _ _ _ fuel message_row messages reverse m
          (λ S R row. Keeps-message_row row refl))
