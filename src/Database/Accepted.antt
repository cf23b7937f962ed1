-- ===== src/Database/Accepted.antt =====
-- What the methods of DatabasePool return is what they fetched (server/src/database_pool.cpp).
use qq_copy.Base.{
  ℕ, ◌≡◌, refl, sym, ap, ◌∙◌, List, [], ◌∷◌, Bool, true, false, Option, none, some, some-eq,
  text_beq_iff,
}
use qq_copy.Base.Int.{ℤ}
use qq_copy.Services.{User}
use qq_copy.Io.{
  Io, Exit, returned, refused, thrown, bad_read, endless, ended, ◌>>=◌, ◌>>◌, continue, call, tell,
  or_bad_read,
}
use qq_copy.Base.Text.{utf8}
use qq_copy.Mysql.Calls.{select_rows}
use qq_copy.Mysql.Selected.{Selected, select_rows-Selected}
use qq_copy.Mysql.{
  Mysql, Param, Column, Row, Buffer, read_int, read_text, int_of, text_of, unset_row, text_param,
  int_column, text_column,
}
use qq_copy.Database.{
  DatabasePool, Borrowed, borrowed, null_connection, no_connection, get_connection, use_borrowed,
  with_connection,
}
use qq_copy.Database.Rows.{return_found}
use qq_copy.Database.Users.{sha256, matching_user, user_if_matching, verify_user}

pub returned-eq : {A : Type 0} {x y : A} → returned x ≡ returned y → x ≡ y
returned-eq e = cc

pub bind-returned :
    {W A B : Type 0} (r : Exit A × W) (f : A → Io W B) (b : B)
    → (continue r f).0 ≡ returned b
    → (a : A) × (r.0 ≡ returned a) × ((f a r.1).0 ≡ returned b)
bind-returned (returned a, w) f b e = (a, refl, e)
bind-returned (refused, w) f b e = absurd (cc)
bind-returned (thrown, w) f b e = absurd (cc)
bind-returned (bad_read, w) f b e = absurd (cc)
bind-returned (endless, w) f b e = absurd (cc)

module _ {W : Type 0} where
  or_bad_read-returned :
      {A : Type 0} (o : Option A) (w : W) (a : A) → (or_bad_read o w).0 ≡ returned a → o ≡ some a
  or_bad_read-returned none w a e = absurd (cc)
  or_bad_read-returned (some x) w a e = ap some (returned-eq e)

  pub read_text-returned :
      (b : Buffer) (w : W) (s : List ℕ) → (read_text b w).0 ≡ returned s → text_of b ≡ some s
  unfolding read_text
  read_text-returned b w s e = or_bad_read-returned (text_of b) w s e

  pub read_int-returned :
      (b : Buffer) (w : W) (n : ℤ) → (read_int b w).0 ≡ returned n → int_of b ≡ some n
  unfolding read_int
  read_int-returned b w n e = or_bad_read-returned (int_of b) w n e

  user_if_matching-returned :
      (user : User) (row : Row) (hash : List ℕ) (match : Bool) (w : W) (v : User)
      → (user_if_matching user row hash match w).0 ≡ returned (some v)
      → (match ≡ true)
        × (int_of (row 0) ≡ some v.user_id)
        × (text_of (row 1) ≡ some v.username)
        × (v.password_hash ≡ hash)
  unfolding user_if_matching
  user_if_matching-returned user row hash false w v e = absurd (cc)
  user_if_matching-returned user row hash true w v e =
      let (user_id, ei, e1) = bind-returned (read_int (row 0) w) _ (some v) e in
      let (username, eu, e2) = bind-returned (read_text (row 1) _) _ (some v) e1 in
      let same = some-eq (returned-eq e2) in
      (
        refl,
        read_int-returned (row 0) w user_id ei ∙ ap (λ u. some u.user_id) same,
        read_text-returned (row 1) _ username eu ∙ ap (λ u. some u.username) same,
        sym (ap (λ u. u.password_hash) same),
      )

-- The user that a fetched row stands for.
abbrev pub IsAccepted : (List ℕ → List ℕ) → List ℕ → Row → User → Type 0
IsAccepted digest password row v =
    (text_of (row 2) ≡ some (sha256 digest password))
    × (int_of (row 0) ≡ some v.user_id)
    × (text_of (row 1) ≡ some v.username)
    × (v.password_hash ≡ sha256 digest password)

module _ {W : Type 0} where
  matching_user-returned :
      (digest : List ℕ → List ℕ) (password : List ℕ) (user : User) (fetched : Bool) (row : Row)
      (w : W) (v : User)
      → (matching_user digest password user fetched row w).0 ≡ returned (some v)
      → (fetched ≡ true) × IsAccepted digest password row v
  unfolding matching_user
  matching_user-returned digest password user false row w v e = absurd (cc)
  matching_user-returned digest password user true row w v e =
      let (hash, eh, e1) = bind-returned (read_text (row 2) w) _ (some v) e in
      let (match, ei, eu, ep) = user_if_matching-returned user row hash _ _ v e1 in
      let same = (text_beq_iff hash (sha256 digest password)).0 match in
      (refl, (read_text-returned (row 2) w hash eh ∙ ap some same, ei, eu, ep ∙ same))

  return_found-returned :
      {A : Type 0} (found : Option A) (w : W) (a : A)
      → (return_found found w).0 ≡ returned a
      → found ≡ some a
  return_found-returned none w a e = absurd (cc)
  return_found-returned (some x) w a e = ap some (returned-eq e)

pub use_borrowed-returned :
    {M : Mysql} {A : Type 0} (body : ℕ → Io M.World A) (got : Borrowed) (q : DatabasePool M) (a : A)
    → (use_borrowed body (got, q)).0 ≡ ended (returned a)
    → (conn : ℕ) × (got ≡ borrowed conn) × ((body conn q.world).0 ≡ returned a)
unfolding use_borrowed
use_borrowed-returned body (borrowed conn) q a e = (conn, refl, cc)
use_borrowed-returned body null_connection q a e = absurd (cc)
use_borrowed-returned body no_connection q a e = absurd (cc)

module _ (M : Mysql) where
  module _ {A : Type 0} (query : List ℕ) (params : List Param) (columns : List Column) (row : Row)
      (read : Bool → Row → Io M.World (Option A)) where
    -- What follows the select of one row.
    abbrev found_row : ℕ × ℕ → Io M.World A
    found_row rows = call (M.mysql_stmt_fetch rows.0 row) >>= λ fetched.
        read fetched.0 fetched.1 >>= λ found.
        tell (M.mysql_free_result rows.1)
        >> (tell (M.mysql_stmt_close rows.0) >> return_found found)

    found_row-returned :
        (rows : ℕ × ℕ) (w : M.World) (a : A)
        → (found_row rows w).0 ≡ returned a
        → (read
            (M.mysql_stmt_fetch rows.0 row w).0.0
            (M.mysql_stmt_fetch rows.0 row w).0.1
            (M.mysql_stmt_fetch rows.0 row w).1).0
          ≡ returned (some a)
    found_row-returned rows w a e =
        let fetched = M.mysql_stmt_fetch rows.0 row w in
        let (found, ef, e1) =
          bind-returned (read fetched.0.0 fetched.0.1 fetched.1)
            (λ found.
              tell (M.mysql_free_result rows.1)
              >> (tell (M.mysql_stmt_close rows.0) >> return_found found))
            a e in
        ef ∙ ap returned (return_found-returned found _ a e1)

    row_of_select-returned :
        (conn : ℕ) (w : M.World) (a : A)
        → ((select_rows M conn query params columns >>= found_row) w).0 ≡ returned a
        → (stmt : ℕ) × (result : ℕ) × (v : M.World) × Selected M conn query params columns w stmt
            result v
          × ((read
                (M.mysql_stmt_fetch stmt row v).0.0
                (M.mysql_stmt_fetch stmt row v).0.1
                (M.mysql_stmt_fetch stmt row v).1).0
              ≡ returned (some a))
    row_of_select-returned conn w a e =
        let selected = select_rows M conn query params columns w in
        let (rows, e0, e1) = bind-returned selected found_row a e in
        (
          rows.0,
          rows.1,
          selected.1,
          select_rows-Selected M conn query params columns w rows selected.1
              (ap (λ x. (x, selected.1)) e0),
          found_row-returned rows selected.1 a e1,
        )

  -- The select of `verify_user`, from the state `w` to the state `v`.
  abbrev pub SelectedUser : ℕ → List ℕ → M.World → ℕ → ℕ → M.World → Type 0
  SelectedUser conn username w stmt result v =
      Selected M conn (utf8 "SELECT user_id, username, password_hash FROM users WHERE username = ?")
        (text_param username ∷ []) (int_column ∷ text_column 64 ∷ text_column 256 ∷ []) w stmt
        result v

  -- Where `verify_user` returns true, it has borrowed a connection; the calls that select the row of
  -- the user name have reported success on it, one after the other, from the state of the client
  -- library on; the fetch from the state that they leave has brought a row; the stored hash of this
  -- row is the hash of the given password, and the id and the name of the result are the row's. So a
  -- connection that is not there, any of these calls that fails, a missing row and another password
  -- are all refused.
  pub verified_user_is_stored :
      (digest : List ℕ → List ℕ) (username password : List ℕ) (user : User) (p : DatabasePool M)
      (v : User)
      → (verify_user digest username password user p).0 ≡ ended (returned v)
      → (conn : ℕ) × (stmt : ℕ) × (result : ℕ) × (w : M.World) × ((get_connection p).0
          ≡ borrowed conn)
        × SelectedUser conn username (get_connection p).1.world stmt result w
        × ((M.mysql_stmt_fetch stmt unset_row w).0.0 ≡ true)
        × IsAccepted digest password (M.mysql_stmt_fetch stmt unset_row w).0.1 v
  unfolding verify_user with_connection
  verified_user_is_stored digest username password user p v e =
      let (conn, taken, e1) =
        use_borrowed-returned _ (get_connection p).0 (get_connection p).1 v e in
      let (stmt, result, w, selected, e2) =
        row_of_select-returned _ _ _ unset_row (matching_user digest password user) conn
          (get_connection p).1.world v e1 in
      let row = M.mysql_stmt_fetch stmt unset_row w in
      let (fetched, accepted) =
        matching_user-returned digest password user row.0.0 row.0.1 row.1 v e2 in
      (conn, stmt, result, w, taken, selected, fetched, accepted)
