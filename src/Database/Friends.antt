-- ===== src/Database/Friends.antt =====
-- server/src/database_pool.cpp: the methods on the table of friends.
use qq_copy.Base.{ℕ, List, [], ◌∷◌}
use qq_copy.Base.Int.{ℤ}
use qq_copy.Base.Text.{utf8}
use qq_copy.Services.{Friend}
use qq_copy.Mysql.{Mysql, int_param, int_column, text_column, Row, unset_row, read_int, read_text}
use qq_copy.Io.{Io, ◌>>=◌, ◌>>◌, return, tell}
use qq_copy.Mysql.Calls.{select_rows, execute_update}
use qq_copy.Database.{Method, with_connection}
use qq_copy.Database.Rows.{fetch_rows}

-- The body of the loop of `get_friends`.
unfoldable pub friend_row : {W : Type 0} → ℤ → Row → Io W Friend
friend_row user_id row = do
  friend_id ← read_int (row 0)
  friend_name ← read_text (row 1)
  avatar_url ← read_text (row 2)
  return (record {
    user_id = user_id;
    friend_id = friend_id;
    friend_name = friend_name;
    avatar_url = avatar_url;
  })

module _ {M : Mysql} where
  open M use {mysql_free_result, mysql_stmt_close}

  -- The first argument bounds the rounds of the loop.
  unfoldable pub get_friends : ℕ → ℤ → List Friend → Method M (List Friend)
  unfolding friend_row
  get_friends fuel user_id friends = with_connection λ conn. do
    rows ←
        select_rows M conn
          (utf8
            "SELECT f.friend_id, u.username, u.avatar_url FROM friends f JOIN users u ON f.friend_id = u.user_id WHERE f.user_id = ? AND f.status = 1")
          (int_param user_id ∷ []) (int_column ∷ text_column 64 ∷ text_column 256 ∷ [])
    items ← fetch_rows M fuel (rows.0) (friend_row user_id) unset_row friends
    tell (mysql_free_result (rows.1))
    tell (mysql_stmt_close (rows.0))
    return items

  unfoldable pub add_friend : ℤ → ℤ → Method M (Unit {0})
  add_friend user_id friend_id = with_connection λ conn.
      execute_update M conn (utf8 "INSERT INTO friends (user_id, friend_id) VALUES (?, ?)")
        (int_param user_id ∷ int_param friend_id ∷ [])

  unfoldable pub delete_friend : ℤ → ℤ → Method M (Unit {0})
  delete_friend user_id friend_id = with_connection λ conn.
      execute_update M conn (utf8 "DELETE FROM friends WHERE user_id = ? AND friend_id = ?")
        (int_param user_id ∷ int_param friend_id ∷ [])
