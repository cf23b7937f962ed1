-- ===== src/Database/Listed.antt =====
-- The lists that `get_friends` and `get_messages` return (server/src/database_pool.cpp).
use qq_copy.Base.{ℕ, ◌≡◌, List, [], ◌∷◌, true, false, some}
use qq_copy.Base.Int.{ℤ}
use qq_copy.Services.{Friend}
use qq_copy.Io.{Io}
use qq_copy.Mysql.{Mysql, Row, int_of, text_of}
use qq_copy.Database.Messages.{Message}

-- The rows that a statement gives from here on, up to the first fetch that fails: what the bound
-- variables hold after each fetch.
pub data Fetched (M : Mysql) (stmt : ℕ) : Row → M.World → List Row → Type 0 where
  no_row :
      (row : Row) (w : M.World)
      → (M.mysql_stmt_fetch stmt row w).0.0 ≡ false
      → Fetched M stmt row w []
  next_row :
      (row : Row) (w : M.World) (rows : List Row)
      → (M.mysql_stmt_fetch stmt row w).0.0 ≡ true
      → Fetched M stmt (M.mysql_stmt_fetch stmt row w).0.1 (M.mysql_stmt_fetch stmt row w).1 rows
      → Fetched M stmt row w ((M.mysql_stmt_fetch stmt row w).0.1 ∷ rows)

-- One item for each row, in the same order.
abbrev pub Rowwise : {A : Type 0} → (Row → A → Type 0) → List Row → List A → Type 0
Rowwise P [] [] = Unit {0}
Rowwise P [] (x ∷ xs) = ⊥
Rowwise P (row ∷ rows) [] = ⊥
Rowwise P (row ∷ rows) (x ∷ xs) = P row x × Rowwise P rows xs

-- The friend that a row stands for.
abbrev pub IsFriend : ℤ → Row → Friend → Type 0
IsFriend user_id row f =
    (f.user_id ≡ user_id)
    × (int_of (row 0) ≡ some f.friend_id)
    × (text_of (row 1) ≡ some f.friend_name)
    × (text_of (row 2) ≡ some f.avatar_url)

-- The message that a row stands for.
abbrev pub IsMessage : Row → Message → Type 0
IsMessage row m =
    (int_of (row 0) ≡ some m.msg_id)
    × (int_of (row 1) ≡ some m.from_id)
    × (int_of (row 2) ≡ some m.to_id)
    × (text_of (row 3) ≡ some m.content)
    × (text_of (row 4) ≡ some m.timestamp)
