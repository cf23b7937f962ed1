-- ===== src/Database/Bodies.antt =====
-- The books over what each method of server/src/database_pool.cpp does with its connection.
use qq_copy.Base.{ℕ, zero, suc, ◌≡◌, refl, List, [], ◌∷◌, ◌++◌, Bool, true, Option, none, some}
use qq_copy.Base.Int.{ℤ}
use qq_copy.Services.{User}
use qq_copy.Io.{Io, ◌>>◌, tell}
use qq_copy.Mysql.{Mysql, Row}
use qq_copy.Mysql.Ledger.{
  Ledger, watched, books, use_statement-books, end_statement-books, end_result-books,
}
use qq_copy.Mysql.Bookkeeping.{
  Keeps, Keeps-bind, Keeps-return, Keeps-refuse, Keeps-call, Keeps-tell, Keeps-if, Keeps-read_text,
  Keeps-read_int,
}
use qq_copy.Database.Rows.{fetch_rows, return_found}
use qq_copy.Database.Users.{matching_user, user_if_matching, question_row, user_row}
use qq_copy.Database.Friends.{friend_row}
use qq_copy.Database.Messages.{message_row}

module _ {W : Type 0} {failed l : Ledger} where
  pub Keeps-friend_row :
      (user_id : ℤ) (row : Row)
      → l.sound ≡ true
      → Keeps l (λ _. l) failed (friend_row {W = W × Ledger} user_id row)
  unfolding friend_row
  Keeps-friend_row user_id row h =
      Keeps-bind (λ _. l) (Keeps-read_int (row 0) h)
        (λ a.
          Keeps-bind (λ _. l) (Keeps-read_text (row 1) h)
            (λ b. Keeps-bind (λ _. l) (Keeps-read_text (row 2) h) (λ c. Keeps-return _ refl)))

  pub Keeps-message_row :
      (row : Row) → l.sound ≡ true → Keeps l (λ _. l) failed (message_row {W = W × Ledger} row)
  unfolding message_row
  Keeps-message_row row h =
      Keeps-bind (λ _. l) (Keeps-read_int (row 0) h)
        (λ a.
          Keeps-bind (λ _. l) (Keeps-read_int (row 1) h)
            (λ b.
              Keeps-bind (λ _. l) (Keeps-read_int (row 2) h)
                (λ c.
                  Keeps-bind (λ _. l) (Keeps-read_text (row 3) h)
                    (λ d.
                      Keeps-bind (λ _. l) (Keeps-read_text (row 4) h) (λ e. Keeps-return _ refl)))))

  Keeps-user_if_matching :
      (user : User) (row : Row) (stored_hash : List ℕ) (match : Bool)
      → l.sound ≡ true
      → Keeps l (λ _. l) failed (user_if_matching {W = W × Ledger} user row stored_hash match)
  unfolding user_if_matching
  Keeps-user_if_matching user row stored_hash match h =
      Keeps-if match
        (Keeps-bind (λ _. l) (Keeps-read_int (row 0) h)
          (λ a. Keeps-bind (λ _. l) (Keeps-read_text (row 1) h) (λ b. Keeps-return _ refl)))
        (Keeps-return none refl)

  pub Keeps-matching_user :
      (digest : List ℕ → List ℕ) (password : List ℕ) (user : User) (fetched : Bool) (row : Row)
      → l.sound ≡ true
      → Keeps l (λ _. l) failed (matching_user {W = W × Ledger} digest password user fetched row)
  unfolding matching_user
  Keeps-matching_user digest password user fetched row h =
      Keeps-if fetched
        (Keeps-bind (λ _. l) (Keeps-read_text (row 2) h)
          (λ stored_hash. Keeps-user_if_matching user row stored_hash _ h))
        (Keeps-return none refl)

  pub Keeps-question_row :
      (fetched : Bool) (row : Row)
      → l.sound ≡ true
      → Keeps l (λ _. l) failed (question_row {W = W × Ledger} fetched row)
  unfolding question_row
  Keeps-question_row fetched row h =
      Keeps-if fetched
        (Keeps-bind (λ _. l) (Keeps-read_text (row 0) h)
          (λ a. Keeps-bind (λ _. l) (Keeps-read_text (row 1) h) (λ b. Keeps-return _ refl)))
        (Keeps-return none refl)

  pub Keeps-user_row :
      (user : User) (fetched : Bool) (row : Row)
      → l.sound ≡ true
      → Keeps l (λ _. l) failed (user_row {W = W × Ledger} user fetched row)
  unfolding user_row
  Keeps-user_row user fetched row h =
      Keeps-if fetched
        (Keeps-bind (λ _. l) (Keeps-read_int (row 0) h)
          (λ a.
            Keeps-bind (λ _. l) (Keeps-read_text (row 1) h)
              (λ b. Keeps-bind (λ _. l) (Keeps-read_text (row 2) h) (λ c. Keeps-return _ refl))))
        (Keeps-return none refl)

  pub Keeps-return_found :
      {A : Type 0} (found : Option A)
      → l ≡ failed
      → Keeps l (λ _. failed) failed (return_found {W = W × Ledger} found)
  Keeps-return_found none e = Keeps-refuse e
  Keeps-return_found (some a) e = Keeps-return a e

module _ (M : Mysql) {C S R : List ℕ} where
  pub Keeps-fetch_rows :
      {A : Type 0} (failed : Ledger) (stmt : ℕ) (item : Row → Io (M.World × Ledger) A)
      → ((row : Row) → Keeps (books C (stmt ∷ S) R) (λ _. books C (stmt ∷ S) R) failed (item row))
      → (fuel : ℕ) (row : Row) (items : List A)
      → Keeps
          (books C (stmt ∷ S) R)
          (λ _. books C (stmt ∷ S) R)
          failed
          (fetch_rows (watched M) fuel stmt item row items)
  unfolding fetch_rows
  Keeps-fetch_rows failed stmt item keep zero row items = record { at = λ w. refl }
  Keeps-fetch_rows failed stmt item keep (suc fuel) row items =
      Keeps-bind (λ _. books C (stmt ∷ S) R)
        (Keeps-call ((watched M).mysql_stmt_fetch stmt row) (λ w. use_statement-books stmt))
        (λ fetched.
          Keeps-if fetched.0
            (Keeps-bind (λ _. books C (stmt ∷ S) R) (keep fetched.1)
              (λ x. Keeps-fetch_rows failed stmt item keep fuel fetched.1 (items ++ x ∷ [])))
            (Keeps-return items refl))

  -- `mysql_free_result(result); mysql_stmt_close(stmt);` and what follows.
  pub Keeps-freed :
      {B : Type 0} {done : B → Ledger} {failed : Ledger} (stmt result : ℕ)
      (k : Io (M.World × Ledger) B)
      → Keeps (books C S R) done failed k
      → Keeps (books C (stmt ∷ S) (result ∷ R)) done failed (
          tell ((watched M).mysql_free_result result)
          >> (tell ((watched M).mysql_stmt_close stmt) >> k))
  Keeps-freed stmt result k h =
      Keeps-bind (λ _. books C (stmt ∷ S) R)
        (Keeps-tell ((watched M).mysql_free_result result) (λ w. end_result-books result))
        (λ _.
          Keeps-bind (λ _. books C S R)
            (Keeps-tell ((watched M).mysql_stmt_close stmt) (λ w. end_statement-books stmt))
            (λ _. h))
