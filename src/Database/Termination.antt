-- ===== src/Database/Termination.antt =====
-- The loops over the rows of a result end (server/src/database_pool.cpp).
use qq_copy.Base.{
  ℕ, zero, suc, ◌+◌, ◌<◌, ◌≡◌, ◌≢◌, inl, inr, refl, ◌∙◌, List, [], ◌∷◌, ◌++◌, Bool, true, false,
  Option, none, some, Bool-cases, arith,
}
use qq_copy.Base.Int.{ℤ}
use qq_copy.Services.{Friend}
use qq_copy.Io.{
  Io, Exit, returned, refused, thrown, bad_read, endless, Result, ended, ◌>>=◌, ◌>>◌, continue,
  return, call, tell, or_bad_read,
}
use qq_copy.Mysql.{
  Mysql, Row, Param, Column, Buffer, read_int, read_text, int_of, text_of, unset_row,
}
use qq_copy.Mysql.Calls.{or_refuse, close_unless, prepare_statement, execute_statement, select_rows}
use qq_copy.Database.{
  DatabasePool, Borrowed, borrowed, null_connection, no_connection, get_connection, use_borrowed,
  with_connection,
}
use qq_copy.Database.Rows.{fetch_rows}
use qq_copy.Database.Friends.{friend_row, get_friends}
use qq_copy.Database.Messages.{Message, message_row, reverse, get_messages}

-- The result set of a statement is finite: each row that is fetched leaves fewer rows.
pub record Finite (M : Mysql) : Type 0 where
  pub rows : ℕ → M.World → ℕ
  pub fetch-fewer :
      (stmt : ℕ) (row : Row) (w : M.World)
      → (M.mysql_stmt_fetch stmt row w).0.0 ≡ true
      → rows stmt (M.mysql_stmt_fetch stmt row w).1 < rows stmt w

-- An action ends.
pub record Ends {W A : Type 0} (m : Io W A) : Type 0 where
  pub at : (w : W) → (m w).0 ≢ endless

-- An action ends and leaves the state as it was.
pub record Reads {W A : Type 0} (m : Io W A) : Type 0 where
  pub ends : (w : W) → (m w).0 ≢ endless
  pub same : (w : W) → (m w).1 ≡ w

continue-ends :
    {W A B : Type 0} (r : Exit A × W) (f : A → Io W B)
    → r.0 ≢ endless
    → ((a : A) → r.0 ≡ returned a → (f a r.1).0 ≢ endless)
    → (continue r f).0 ≢ endless
continue-ends (returned a, w) f h k = k a refl
continue-ends (refused, w) f h k = λ e. cc
continue-ends (thrown, w) f h k = λ e. cc
continue-ends (bad_read, w) f h k = λ e. cc
continue-ends (endless, w) f h k = absurd (h refl)

continue-same :
    {W A B : Type 0} (r : Exit A × W) (f : A → Io W B) (w : W)
    → r.1 ≡ w
    → ((a : A) → Reads (f a))
    → (continue r f).1 ≡ w
continue-same (returned a, v) f w h k = (k a).same v ∙ h
continue-same (refused, v) f w h k = h
continue-same (thrown, v) f w h k = h
continue-same (bad_read, v) f w h k = h
continue-same (endless, v) f w h k = h

module _ {W : Type 0} where
  Ends-bind :
      {A B : Type 0} {m : Io W A} {f : A → Io W B}
      → Ends m
      → ((a : A) → Ends (f a))
      → Ends (m >>= f)
  Ends-bind {m} {f} h k = record {
    at = λ w. continue-ends (m w) f (h.at w) (λ a _. (k a).at (m w).1);
  }

  Ends-call : {A : Type 0} (f : W → A × W) → Ends (call f)
  Ends-call f = record { at = λ w e. cc }

  Ends-tell : (f : W → W) → Ends (tell f)
  Ends-tell f = record { at = λ w e. cc }

  Ends-return : {A : Type 0} (a : A) → Ends (return {W = W} a)
  Ends-return a = record { at = λ w e. cc }

  Reads-bind :
      {A B : Type 0} {m : Io W A} {f : A → Io W B}
      → Reads m
      → ((a : A) → Reads (f a))
      → Reads (m >>= f)
  Reads-bind {m} {f} h k = record {
    ends = λ w. continue-ends (m w) f (h.ends w) (λ a _. (k a).ends (m w).1);
    same = λ w. continue-same (m w) f w (h.same w) k;
  }

  Reads-return : {A : Type 0} (a : A) → Reads (return {W = W} a)
  Reads-return a = record { ends = λ w e. cc; same = λ w. refl }

  Reads-or_bad_read : {A : Type 0} (o : Option A) → Reads (or_bad_read {W = W} o)
  Reads-or_bad_read none = record { ends = λ w e. cc; same = λ w. refl }
  Reads-or_bad_read (some a) = record { ends = λ w e. cc; same = λ w. refl }

  Reads-int : (b : Buffer) → Reads (read_int {W = W} b)
  unfolding read_int
  Reads-int b = Reads-or_bad_read (int_of b)

  Reads-text : (b : Buffer) → Reads (read_text {W = W} b)
  unfolding read_text
  Reads-text b = Reads-or_bad_read (text_of b)

  pub Reads-friend_row : (user_id : ℤ) (row : Row) → Reads (friend_row {W = W} user_id row)
  unfolding friend_row
  Reads-friend_row user_id row = Reads-bind (Reads-int (row 0)) (λ a.
      Reads-bind (Reads-text (row 1)) (λ b. Reads-bind (Reads-text (row 2)) (λ c. Reads-return _)))

  pub Reads-message_row : (row : Row) → Reads (message_row {W = W} row)
  unfolding message_row
  Reads-message_row row = Reads-bind (Reads-int (row 0)) (λ a. Reads-bind (Reads-int (row 1)) (λ b.
      Reads-bind (Reads-int (row 2)) (λ c.
        Reads-bind (Reads-text (row 3))
          (λ d. Reads-bind (Reads-text (row 4)) (λ e. Reads-return _)))))

module _ (M : Mysql) where
  Ends-or_refuse : (clean : M.World → M.World) (p : Option ℕ) → Ends (or_refuse M clean p)
  Ends-or_refuse clean none = record { at = λ w e. cc }
  Ends-or_refuse clean (some p) = record { at = λ w e. cc }

  Ends-close_unless : (stmt : ℕ) (done : Bool) → Ends (close_unless M stmt done)
  Ends-close_unless stmt true = record { at = λ w e. cc }
  Ends-close_unless stmt false = record { at = λ w e. cc }

  Ends-select_rows :
      (conn : ℕ) (query : List ℕ) (params : List Param) (columns : List Column)
      → Ends (select_rows M conn query params columns)
  unfolding prepare_statement execute_statement select_rows
  Ends-select_rows conn query params columns =
      Ends-bind
        (Ends-bind
          (Ends-bind (Ends-call (M.mysql_stmt_init conn)) (λ p.
            Ends-bind (Ends-or_refuse (λ w. w) p) (λ stmt.
              Ends-bind (Ends-call (M.mysql_stmt_prepare stmt query)) (λ b.
                Ends-bind (Ends-close_unless stmt b) (λ _.
                  Ends-bind (Ends-call (M.mysql_stmt_bind_param stmt params))
                    (λ b2. Ends-bind (Ends-close_unless stmt b2) (λ _. Ends-return stmt)))))))
          (λ stmt.
            Ends-bind (Ends-call (M.mysql_stmt_execute stmt))
              (λ b. Ends-bind (Ends-close_unless stmt b) (λ _. Ends-return stmt))))
        (λ stmt. Ends-bind (Ends-call (M.mysql_stmt_result_metadata stmt)) (λ p.
          Ends-bind (Ends-or_refuse (M.mysql_stmt_close stmt) p) (λ result.
            Ends-bind (Ends-tell (M.mysql_stmt_bind_result stmt columns))
              (λ _. Ends-return (stmt, result)))))

  module _ (F : Finite M) where
    fetch_rows-ends :
        {A : Type 0} (stmt : ℕ) (item : Row → Io M.World A)
        → ((row : Row) → Reads (item row))
        → (fuel : ℕ) (row : Row) (items : List A) (w : M.World) → F.rows stmt w < fuel
        → (fetch_rows M fuel stmt item row items w).0 ≢ endless
    unfolding fetch_rows
    fetch_rows-ends stmt item reads zero row items w h = absurd (omega arith)
    fetch_rows-ends stmt item reads (suc fuel) row items w h =
        let row' = (M.mysql_stmt_fetch stmt row w).0.1 in
        let w' = (M.mysql_stmt_fetch stmt row w).1 in
        elim (Bool-cases (M.mysql_stmt_fetch stmt row w).0.0) [
          | inl more ↦
              let fewer = F.fetch-fewer stmt row w more in
              let left : F.rows stmt w' < fuel = omega arith in
              rw more (
                continue-ends (item row' w')
                  (λ x. fetch_rows M fuel stmt item row' (items ++ x ∷ [])) ((reads row').ends w')
                  (λ x _.
                    rw ((reads row').same w')
                      (fetch_rows-ends stmt item reads fuel row' (items ++ x ∷ []) w' left)))
          | inr done ↦ rw done (λ e. cc)
        ]

    module _ {A B : Type 0} (query : List ℕ) (params : List Param) (columns : List Column)
        (item : Row → Io M.World A) (reads : (row : Row) → Reads (item row)) (items : List A)
        (result : List A → B) where
      -- The use of a connection by a method with a loop.
      abbrev listed : ℕ → ℕ → Io M.World B
      listed fuel conn = select_rows M conn query params columns >>= λ rows.
          fetch_rows M fuel rows.0 item unset_row items >>= λ all.
          tell (M.mysql_free_result rows.1)
          >> (tell (M.mysql_stmt_close rows.0) >> return (result all))

      unfoldable Ending : (ℕ → Result B × DatabasePool M) → Type 0
      Ending run = (fuel : ℕ) × ((more : ℕ) → (run (fuel + more)).0 ≢ ended endless)

      after_select-ends :
          (r : Exit (ℕ × ℕ) × M.World)
          → r.0 ≢ endless
          → (fuel : ℕ) × ((more : ℕ)
              → (continue r (λ rows.
                  fetch_rows M (fuel + more) rows.0 item unset_row items >>= λ all.
                  tell (M.mysql_free_result rows.1)
                  >> (tell (M.mysql_stmt_close rows.0) >> return (result all)))).0
                ≢ endless)
      after_select-ends (returned rows, w) h = (
        suc (F.rows rows.0 w),
        λ more.
            let enough : F.rows rows.0 w < suc (F.rows rows.0 w) + more = omega arith in
            continue-ends
              (fetch_rows M (suc (F.rows rows.0 w) + more) rows.0 item unset_row items w) _
              (fetch_rows-ends rows.0 item reads (suc (F.rows rows.0 w) + more) unset_row items w
                enough)
              (λ all _ e. cc),
      )
      after_select-ends (refused, w) h = (0, λ more e. cc)
      after_select-ends (thrown, w) h = (0, λ more e. cc)
      after_select-ends (bad_read, w) h = (0, λ more e. cc)
      after_select-ends (endless, w) h = absurd (h refl)

      ended-ne : (r : Exit B) → r ≢ endless → ended r ≢ ended endless
      ended-ne r h e = h (cc)

      use_borrowed-ends :
          (got : Borrowed) (q : DatabasePool M)
          → Ending (λ fuel. use_borrowed (listed fuel) (got, q))
      unfolding use_borrowed Ending
      use_borrowed-ends (borrowed conn) q =
          let (fuel, h) =
            after_select-ends (select_rows M conn query params columns q.world)
              ((Ends-select_rows conn query params columns).at q.world) in
          (fuel, λ more. ended-ne _ (h more))
      use_borrowed-ends null_connection q = (0, λ more e. cc)
      use_borrowed-ends no_connection q = (0, λ more e. cc)

      with_connection-ends : (p : DatabasePool M) → Ending (λ fuel. with_connection (listed fuel) p)
      unfolding with_connection
      with_connection-ends p = use_borrowed-ends (get_connection p).0 (get_connection p).1

    -- Where the result set of a statement is finite, the loops of `get_friends` and `get_messages`
    -- end: from some number of rounds on, the methods never come to the bound of their rounds.
    pub row_loops_end :
        (user_id friend_id : ℤ) (friends : List Friend) (messages : List Message) (limit : ℤ)
        (p : DatabasePool M)
        → ((fuel : ℕ) × ((more : ℕ)
              → (get_friends (fuel + more) user_id friends p).0 ≢ ended endless))
          × ((fuel : ℕ) × ((more : ℕ)
                → (get_messages (fuel + more) user_id friend_id messages limit p).0
                  ≢ ended endless))
    unfolding get_friends get_messages Ending
    row_loops_end user_id friend_id friends messages limit p = (
      with_connection-ends _ _ _ (friend_row user_id) (Reads-friend_row user_id) friends
          (λ all. all) p,
      with_connection-ends _ _ _ message_row Reads-message_row messages reverse p,
    )
