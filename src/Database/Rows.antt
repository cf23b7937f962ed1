-- ===== src/Database/Rows.antt =====
-- server/src/database_pool.cpp: the loops over the rows of a result.
use qq_copy.Base.{ℕ, zero, suc, List, [], ◌∷◌, ◌++◌, Option, none, some, if◌then◌else◌}
use qq_copy.Mysql.{Mysql, Row}
use qq_copy.Io.{Io, ◌>>=◌, return, refuse, loop_for_ever, call}

module _ (M : Mysql) where
  open M use {World, mysql_stmt_fetch}

  -- `while (mysql_stmt_fetch(stmt) == 0) { ... push_back(item); }`, with the items so far. The bound
  -- variables keep their values from one row to the next.
  unfoldable pub fetch_rows :
      {A : Type 0} → ℕ → ℕ → (Row → Io World A) → Row → List A → Io World (List A)
  fetch_rows zero stmt item row items = loop_for_ever
  fetch_rows (suc fuel) stmt item row items = do
    fetched ← call (mysql_stmt_fetch stmt row)
    if fetched.0
        then (do x ← item (fetched.1); fetch_rows fuel stmt item (fetched.1) (items ++ x ∷ []))
        else return items

-- `return found;` with the out parameter that was written where it is true
abbrev pub return_found : {W A : Type 0} → Option A → Io W A
return_found none = refuse
return_found (some a) = return a
