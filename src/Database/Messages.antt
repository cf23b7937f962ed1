-- ===== src/Database/Messages.antt =====
-- server/src/database_pool.cpp: the methods on the table of messages.
use qq_copy.Base.{ℕ, List, [], ◌∷◌, ◌++◌}
use qq_copy.Base.Int.{ℤ}
use qq_copy.Base.Text.{utf8}
use qq_copy.Mysql.{
  Mysql, text_param, int_param, int_column, text_column, Row, unset_row, read_int, read_text,
}
use qq_copy.Io.{Io, ◌>>=◌, ◌>>◌, return, tell}
use qq_copy.Mysql.Calls.{select_rows, execute_insert}
use qq_copy.Database.{Method, with_connection}
use qq_copy.Database.Rows.{fetch_rows}

pub record Message : Type 0 where
  pub msg_id : ℤ
  pub from_id : ℤ
  pub to_id : ℤ
  pub content : List ℕ
  pub timestamp : List ℕ

-- The body of the loop of `get_messages`.
unfoldable pub message_row : {W : Type 0} → Row → Io W Message
message_row row = do
  msg_id ← read_int (row 0)
  from_id ← read_int (row 1)
  to_id ← read_int (row 2)
  content ← read_text (row 3)
  timestamp ← read_text (row 4)
  return (record {
    msg_id = msg_id;
    from_id = from_id;
    to_id = to_id;
    content = content;
    timestamp = timestamp;
  })

-- `std::reverse`
abbrev pub reverse {ℓ} : {A : Type ℓ} → List A → List A
reverse [] = []
reverse (x ∷ xs) = reverse xs ++ x ∷ []

module _ {M : Mysql} where
  open M use {mysql_free_result, mysql_stmt_close}

  unfoldable pub send_message : ℤ → ℤ → List ℕ → Method M ℤ
  send_message from_id to_id content = with_connection λ conn.
      execute_insert M conn (utf8 "INSERT INTO messages (from_id, to_id, content) VALUES (?, ?, ?)")
        (int_param from_id ∷ int_param to_id ∷ text_param content ∷ [])

  -- The first argument bounds the rounds of the loop.
  unfoldable pub get_messages : ℕ → ℤ → ℤ → List Message → ℤ → Method M (List Message)
  unfolding message_row
  get_messages fuel user_id friend_id messages limit = with_connection λ conn. do
    rows ←
        select_rows M conn
          (utf8
            "SELECT msg_id, from_id, to_id, content, timestamp FROM messages WHERE (from_id = ? AND to_id = ?) OR (from_id = ? AND to_id = ?) ORDER BY timestamp DESC LIMIT ?")
          (int_param user_id
            ∷ int_param friend_id
            ∷ int_param friend_id
            ∷ int_param user_id
            ∷ int_param limit
            ∷ [])
          (int_column ∷ int_column ∷ int_column ∷ text_column 4095 ∷ text_column 19 ∷ [])
    items ← fetch_rows M fuel (rows.0) message_row unset_row messages
    tell (mysql_free_result (rows.1))
    tell (mysql_stmt_close (rows.0))
    return (reverse items)
