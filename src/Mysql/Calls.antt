-- ===== src/Mysql/Calls.antt =====
-- server/src/database_pool.cpp: the calls that every method makes on its statement, with the early
-- returns that close it.
use qq_copy.Base.{ℕ, ◌^◌, ◌%◌, List, Bool, Option, none, some, if◌then◌else◌}
use qq_copy.Base.Int.{ℤ, to_signed}
use qq_copy.Mysql.{Mysql, Param, Column}
use qq_copy.Io.{Io, ◌>>=◌, ◌>>◌, return, refuse, call, tell}

module _ (M : Mysql) where
  open M use {
    World, mysql_stmt_init, mysql_stmt_prepare, mysql_stmt_bind_param, mysql_stmt_execute,
    mysql_stmt_result_metadata, mysql_stmt_bind_result, mysql_stmt_insert_id, mysql_stmt_close,
  }

  -- `if (!p) return false;` with the clean-up before the return
  abbrev pub or_refuse : (World → World) → Option ℕ → Io World ℕ
  or_refuse clean none = tell clean >> refuse
  or_refuse clean (some p) = return p

  -- `if (code != 0) { mysql_stmt_close(stmt); return false; }`
  abbrev pub close_unless : ℕ → Bool → Io World (Unit {0})
  close_unless stmt done = if done then return tt else (tell (mysql_stmt_close stmt) >> refuse)

  -- The id is read only where the row was inserted.
  abbrev pub insert_id_if : Bool → ℕ → Io World ℕ
  insert_id_if success stmt = if success then call (mysql_stmt_insert_id stmt) else return 0

  -- A statement with its parameters.
  unfoldable pub prepare_statement : ℕ → List ℕ → List Param → Io World ℕ
  prepare_statement conn query params = do
    p ← call (mysql_stmt_init conn)
    stmt ← or_refuse (λ w. w) p
    prepared ← call (mysql_stmt_prepare stmt query)
    close_unless stmt prepared
    bound ← call (mysql_stmt_bind_param stmt params)
    close_unless stmt bound
    return stmt

  unfoldable pub execute_statement : ℕ → List ℕ → List Param → Io World ℕ
  unfolding prepare_statement
  execute_statement conn query params = do
    stmt ← prepare_statement conn query params
    executed ← call (mysql_stmt_execute stmt)
    close_unless stmt executed
    return stmt

  -- A statement with rows: the statement and its result.
  unfoldable pub select_rows : ℕ → List ℕ → List Param → List Column → Io World (ℕ × ℕ)
  unfolding execute_statement
  select_rows conn query params columns = do
    stmt ← execute_statement conn query params
    p ← call (mysql_stmt_result_metadata stmt)
    result ← or_refuse (mysql_stmt_close stmt) p
    tell (mysql_stmt_bind_result stmt columns)
    return (stmt, result)

  -- `bool success = (mysql_stmt_execute(stmt) == 0); ... mysql_stmt_close(stmt); return success;`
  unfoldable pub execute_update : ℕ → List ℕ → List Param → Io World (Unit {0})
  unfolding prepare_statement
  execute_update conn query params = do
    stmt ← prepare_statement conn query params
    success ← call (mysql_stmt_execute stmt)
    tell (mysql_stmt_close stmt)
    if success then return tt else refuse

  -- The same with `static_cast<int>(mysql_stmt_insert_id(stmt))` where it succeeds.
  unfoldable pub execute_insert : ℕ → List ℕ → List Param → Io World ℤ
  unfolding prepare_statement
  execute_insert conn query params = do
    stmt ← prepare_statement conn query params
    success ← call (mysql_stmt_execute stmt)
    id ← insert_id_if success stmt
    tell (mysql_stmt_close stmt)
    if success then return (to_signed (2 ^ 31) (id % 2 ^ 32)) else refuse
