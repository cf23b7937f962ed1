-- ===== src/Mysql/Bookkeeping.antt =====
-- The books over the calls that every method of server/src/database_pool.cpp makes on its statement.
use qq_copy.Base.{ℕ, ◌≡◌, refl, ap, List, ◌∷◌, Bool, true, false, Option, none, some, if◌then◌else◌}
use qq_copy.Base.{◌^◌, ◌%◌}
use qq_copy.Base.Int.{to_signed}
use qq_copy.Io.{
  Exit, returned, refused, thrown, bad_read, endless, Io, ◌>>=◌, ◌>>◌, continue, return, refuse,
  call, tell, or_bad_read,
}
use qq_copy.Mysql.{Mysql, Param, Column, Buffer, read_int, read_text, int_of, text_of}
use qq_copy.Mysql.Calls.{
  or_refuse, close_unless, prepare_statement, execute_statement, select_rows, execute_update,
  execute_insert, insert_id_if,
}
use qq_copy.Mysql.Ledger.{
  Ledger, watched, books, After, member, new_statement, new_result, use_connection-books,
  use_statement-books, end_statement-books,
}

-- An action turns the books `l` into `done a` where it returns `a`, and into `failed` where it fails.
pub record Keeps {W A : Type 0} (l : Ledger) (done : A → Ledger) (failed : Ledger)
    (m : Io (W × Ledger) A) : Type 0 where
  pub at : (w : W) → After done failed (m (w, l))

After-continue :
    {W A B : Type 0} (mid : A → Ledger) (done : B → Ledger) (failed : Ledger)
    (r : Exit A × (W × Ledger)) (f : A → Io (W × Ledger) B)
    → After mid failed r
    → ((a : A) (w : W) → After done failed (f a (w, mid a)))
    → After done failed (continue r f)
After-continue mid done failed (returned a, (w, l)) f h k = rw h (k a w)
After-continue mid done failed (refused, (w, l)) f h k = h
After-continue mid done failed (thrown, (w, l)) f h k = h
After-continue mid done failed (bad_read, (w, l)) f h k = h
After-continue mid done failed (endless, (w, l)) f h k = h

module _ {W : Type 0} {failed l : Ledger} where
  pub Keeps-bind :
      {A B : Type 0} (mid : A → Ledger) {done : B → Ledger} {m : Io (W × Ledger) A}
      {f : A → Io (W × Ledger) B}
      → Keeps l mid failed m
      → ((a : A) → Keeps (mid a) done failed (f a))
      → Keeps l done failed (m >>= f)
  Keeps-bind mid {done} {m} {f} h k = record {
    at = λ w. After-continue mid done failed (m (w, l)) f (h.at w) (λ a v. (k a).at v);
  }

  pub Keeps-return :
      {A : Type 0} {done : A → Ledger} (a : A)
      → l ≡ done a
      → Keeps l done failed (return {W = W × Ledger} a)
  Keeps-return a e = record { at = λ w. e }

  pub Keeps-refuse :
      {A : Type 0} {done : A → Ledger} → l ≡ failed → Keeps l done failed (refuse {W = W × Ledger})
  Keeps-refuse e = record { at = λ w. e }

  pub Keeps-call :
      {A : Type 0} {done : A → Ledger} (f : W × Ledger → A × (W × Ledger))
      → ((w : W) → (f (w, l)).1.1 ≡ done (f (w, l)).0)
      → Keeps l done failed (call f)
  Keeps-call f h = record { at = λ w. h w }

  pub Keeps-tell :
      {done : Ledger} (f : W × Ledger → W × Ledger)
      → ((w : W) → (f (w, l)).1 ≡ done)
      → Keeps l (λ _. done) failed (tell f)
  Keeps-tell f h = record { at = λ w. h w }

  pub Keeps-if :
      {A : Type 0} {done : A → Ledger} {m n : Io (W × Ledger) A} (b : Bool)
      → Keeps l done failed m
      → Keeps l done failed n
      → Keeps l done failed (if b then m else n)
  Keeps-if true h k = h
  Keeps-if false h k = k

  Keeps-or_bad_read :
      {A : Type 0} (o : Option A)
      → l.sound ≡ true
      → Keeps l (λ _. l) failed (or_bad_read {W = W × Ledger} o)
  Keeps-or_bad_read none h = record { at = λ w. h }
  Keeps-or_bad_read (some a) h = record { at = λ w. refl }

  -- Reading a variable calls nothing.
  pub Keeps-read_text :
      (b : Buffer) → l.sound ≡ true → Keeps l (λ _. l) failed (read_text {W = W × Ledger} b)
  unfolding read_text
  Keeps-read_text b h = Keeps-or_bad_read (text_of b) h

  pub Keeps-read_int :
      (b : Buffer) → l.sound ≡ true → Keeps l (λ _. l) failed (read_int {W = W × Ledger} b)
  unfolding read_int
  Keeps-read_int b h = Keeps-or_bad_read (int_of b) h

module _ (M : Mysql) (C S R : List ℕ) where
  Keeps-close_unless :
      (stmt : ℕ) (done : Bool)
      → Keeps
          (books C (stmt ∷ S) R)
          (λ _. books C (stmt ∷ S) R)
          (books C S R)
          (close_unless (watched M) stmt done)
  Keeps-close_unless stmt true = Keeps-return tt refl
  Keeps-close_unless stmt false = record { at = λ w. end_statement-books stmt }

  Keeps-new_statement :
      (p : Option ℕ)
      → Keeps
          (new_statement p (books C S R))
          (λ stmt. books C (stmt ∷ S) R)
          (books C S R)
          (or_refuse (watched M) (λ v. v) p)
  Keeps-new_statement none = record { at = λ w. refl }
  Keeps-new_statement (some p) = record { at = λ w. refl }

  -- A call on the statement, and the early return that closes it.
  Keeps-checked :
      {B : Type 0} {done : B → Ledger} (stmt : ℕ) (g : M.World × Ledger → Bool × (M.World × Ledger))
      {k : Io (M.World × Ledger) B}
      → ((w : M.World) → (g (w, books C (stmt ∷ S) R)).1.1 ≡ books C (stmt ∷ S) R)
      → Keeps (books C (stmt ∷ S) R) done (books C S R) k
      → Keeps
          (books C (stmt ∷ S) R)
          done
          (books C S R)
          (call g >>= λ b. close_unless (watched M) stmt b >> k)
  Keeps-checked stmt g {k} e h =
      Keeps-bind (λ _. books C (stmt ∷ S) R) (Keeps-call g e)
        (λ b. Keeps-bind (λ _. books C (stmt ∷ S) R) (Keeps-close_unless stmt b) (λ _. h))

  pub Keeps-prepare_statement :
      (conn : ℕ) (query : List ℕ) (params : List Param)
      → member conn C ≡ true
      → Keeps
          (books C S R)
          (λ stmt. books C (stmt ∷ S) R)
          (books C S R)
          (prepare_statement (watched M) conn query params)
  unfolding prepare_statement
  Keeps-prepare_statement conn query params h =
      Keeps-bind (λ p. new_statement p (books C S R))
        (Keeps-call ((watched M).mysql_stmt_init conn) (λ w.
          ap (new_statement (M.mysql_stmt_init conn w).0)
            (use_connection-books {C = C} {S = S} {R = R} conn h)))
        (λ p.
          Keeps-bind (λ stmt. books C (stmt ∷ S) R) (Keeps-new_statement p)
            (λ stmt.
              Keeps-checked stmt ((watched M).mysql_stmt_prepare stmt query)
                (λ w. use_statement-books stmt)
                (Keeps-checked stmt ((watched M).mysql_stmt_bind_param stmt params)
                  (λ w. use_statement-books stmt) (Keeps-return stmt refl))))

  pub Keeps-execute_statement :
      (conn : ℕ) (query : List ℕ) (params : List Param)
      → member conn C ≡ true
      → Keeps
          (books C S R)
          (λ stmt. books C (stmt ∷ S) R)
          (books C S R)
          (execute_statement (watched M) conn query params)
  unfolding execute_statement
  Keeps-execute_statement conn query params h =
      Keeps-bind (λ stmt. books C (stmt ∷ S) R) (Keeps-prepare_statement conn query params h)
        (λ stmt.
          Keeps-checked stmt ((watched M).mysql_stmt_execute stmt) (λ w. use_statement-books stmt)
            (Keeps-return stmt refl))

  Keeps-new_result :
      (stmt : ℕ) (p : Option ℕ)
      → Keeps
          (new_result p (books C (stmt ∷ S) R))
          (λ result. books C (stmt ∷ S) (result ∷ R))
          (books C S R)
          (or_refuse (watched M) ((watched M).mysql_stmt_close stmt) p)
  Keeps-new_result stmt none = record { at = λ w. end_statement-books stmt }
  Keeps-new_result stmt (some p) = record { at = λ w. refl }

  pub Keeps-select_rows :
      (conn : ℕ) (query : List ℕ) (params : List Param) (columns : List Column)
      → member conn C ≡ true
      → Keeps
          (books C S R)
          (λ rows. books C (rows.0 ∷ S) (rows.1 ∷ R))
          (books C S R)
          (select_rows (watched M) conn query params columns)
  unfolding select_rows
  Keeps-select_rows conn query params columns h =
      Keeps-bind (λ stmt. books C (stmt ∷ S) R) (Keeps-execute_statement conn query params h)
        (λ stmt.
          Keeps-bind (λ p. new_result p (books C (stmt ∷ S) R))
            (Keeps-call ((watched M).mysql_stmt_result_metadata stmt) (λ w.
              ap (new_result (M.mysql_stmt_result_metadata stmt w).0)
                (use_statement-books {C = C} {S = S} {R = R} stmt)))
            (λ p.
              Keeps-bind (λ result. books C (stmt ∷ S) (result ∷ R)) (Keeps-new_result stmt p)
                (λ result.
                  Keeps-bind (λ _. books C (stmt ∷ S) (result ∷ R))
                    (Keeps-tell ((watched M).mysql_stmt_bind_result stmt columns)
                      (λ w. use_statement-books stmt))
                    (λ _. Keeps-return (stmt, result) refl))))

  pub Keeps-success :
      {A : Type 0} (success : Bool) (a : A)
      → Keeps
          (books C S R)
          (λ _. books C S R)
          (books C S R)
          (if success then return {W = M.World × Ledger} a else refuse)
  Keeps-success true a = Keeps-return a refl
  Keeps-success false a = Keeps-refuse refl

  pub Keeps-execute_update :
      (conn : ℕ) (query : List ℕ) (params : List Param)
      → member conn C ≡ true
      → Keeps
          (books C S R)
          (λ _. books C S R)
          (books C S R)
          (execute_update (watched M) conn query params)
  unfolding execute_update
  Keeps-execute_update conn query params h =
      Keeps-bind (λ stmt. books C (stmt ∷ S) R) (Keeps-prepare_statement conn query params h)
        (λ stmt.
          Keeps-bind (λ _. books C (stmt ∷ S) R)
            (Keeps-call ((watched M).mysql_stmt_execute stmt) (λ w. use_statement-books stmt))
            (λ success.
              Keeps-bind (λ _. books C S R)
                (Keeps-tell ((watched M).mysql_stmt_close stmt) (λ w. end_statement-books stmt))
                (λ _. Keeps-success success tt)))

  Keeps-insert_id_if :
      (success : Bool) (stmt : ℕ)
      → Keeps
          (books C (stmt ∷ S) R)
          (λ _. books C (stmt ∷ S) R)
          (books C S R)
          (insert_id_if (watched M) success stmt)
  Keeps-insert_id_if true stmt =
      Keeps-call ((watched M).mysql_stmt_insert_id stmt) (λ w. use_statement-books stmt)
  Keeps-insert_id_if false stmt = Keeps-return 0 refl

  pub Keeps-execute_insert :
      (conn : ℕ) (query : List ℕ) (params : List Param)
      → member conn C ≡ true
      → Keeps
          (books C S R)
          (λ _. books C S R)
          (books C S R)
          (execute_insert (watched M) conn query params)
  unfolding execute_insert
  Keeps-execute_insert conn query params h =
      Keeps-bind (λ stmt. books C (stmt ∷ S) R) (Keeps-prepare_statement conn query params h)
        (λ stmt.
          Keeps-bind (λ _. books C (stmt ∷ S) R)
            (Keeps-call ((watched M).mysql_stmt_execute stmt) (λ w. use_statement-books stmt))
            (λ success.
              Keeps-bind (λ _. books C (stmt ∷ S) R) (Keeps-insert_id_if success stmt)
                (λ id.
                  Keeps-bind (λ _. books C S R)
                    (Keeps-tell ((watched M).mysql_stmt_close stmt) (λ w. end_statement-books stmt))
                    (λ _. Keeps-success success (to_signed (2 ^ 31) (id % 2 ^ 32))))))
