-- ===== src/Mysql/Selected.antt =====
-- What a select has done where it returns (server/src/database_pool.cpp): each call of the client
-- library on it has reported success, in this order.
use qq_copy.Base.{ℕ, ◌≡◌, refl, sym, ap, ◌∙◌, List, Bool, true, false, Option, none, some}
use qq_copy.Io.{
  Io, Exit, returned, refused, thrown, bad_read, endless, continue, call, tell, return, ◌>>=◌,
}
use qq_copy.Mysql.{Mysql, Param, Column}
use qq_copy.Mysql.Calls.{or_refuse, close_unless, prepare_statement, execute_statement, select_rows}

-- The action `m` on `w` returns `a` and leaves `v`.
abbrev pub Gives : {W A : Type 0} → Io W A → W → A → W → Type 0
Gives m w a v = m w ≡ (returned a, v)

pub Gives-bind :
    {W A B : Type 0} (r : Exit A × W) (f : A → Io W B) (b : B) (v : W)
    → continue r f ≡ (returned b, v)
    → (a : A) × (u : W) × (r ≡ (returned a, u)) × Gives (f a) u b v
Gives-bind (returned a, u) f b v e = (a, u, refl, e)
Gives-bind (refused, u) f b v e = absurd (cc)
Gives-bind (thrown, u) f b v e = absurd (cc)
Gives-bind (bad_read, u) f b v e = absurd (cc)
Gives-bind (endless, u) f b v e = absurd (cc)

pub Gives-call :
    {W A : Type 0} (r : A × W) (a : A) (v : W)
    → ◌≡◌ {A = Exit A × W} (returned r.0, r.1) (returned a, v)
    → r ≡ (a, v)
Gives-call (x, u) a v e = cc

Gives-return :
    {W A : Type 0} (a : A) (w : W) (b : A) (v : W) → Gives (return a) w b v → (a ≡ b) × (w ≡ v)
Gives-return a w b v e = (cc, cc)

module _ (M : Mysql) where
  open M use {
    World, mysql_stmt_init, mysql_stmt_prepare, mysql_stmt_bind_param, mysql_stmt_execute,
    mysql_stmt_result_metadata, mysql_stmt_bind_result, mysql_stmt_close,
  }

  Gives-or_refuse :
      (clean : World → World) (p : Option ℕ) (w : World) (a : ℕ) (v : World)
      → Gives (or_refuse M clean p) w a v
      → (p ≡ some a) × (v ≡ w)
  Gives-or_refuse clean none w a v e = absurd (cc)
  Gives-or_refuse clean (some p) w a v e = (cc, cc)

  Gives-close_unless :
      (stmt : ℕ) (done : Bool) (w : World) (v : World)
      → Gives (close_unless M stmt done) w tt v
      → (done ≡ true) × (v ≡ w)
  Gives-close_unless stmt true w v e = (refl, cc)
  Gives-close_unless stmt false w v e = absurd (cc)

  -- The calls of a select on the connection `conn`, from the state `w` to the state `v`.
  pub record Selected (conn : ℕ) (query : List ℕ) (params : List Param) (columns : List Column)
      (w : World) (stmt : ℕ) (result : ℕ) (v : World) : Type 0 where
    pub w1 : World
    pub init : mysql_stmt_init conn w ≡ (some stmt, w1)
    pub w2 : World
    pub prepared : mysql_stmt_prepare stmt query w1 ≡ (true, w2)
    pub w3 : World
    pub bound : mysql_stmt_bind_param stmt params w2 ≡ (true, w3)
    pub w4 : World
    pub executed : mysql_stmt_execute stmt w3 ≡ (true, w4)
    pub w5 : World
    pub described : mysql_stmt_result_metadata stmt w4 ≡ (some result, w5)
    pub at : v ≡ mysql_stmt_bind_result stmt columns w5

  -- A call that reports success or closes the statement.
  Gives-checked :
      {A : Type 0} (stmt : ℕ) (step : World → Bool × World) (k : Io World A) (w : World) (a : A)
      (v : World)
      → Gives (call step >>= λ done. close_unless M stmt done >>= λ _. k) w a v
      → (u : World) × (step w ≡ (true, u)) × Gives k u a v
  Gives-checked stmt step k w a v e =
      let (done, u, e1, e2) =
        Gives-bind (call step w) (λ b. close_unless M stmt b >>= λ _. k) a v e in
      let (unit, u2, e3, e4) = Gives-bind (close_unless M stmt done u) (λ _. k) a v e2 in
      let (ok, same) = Gives-close_unless stmt done u u2 e3 in
      (u, Gives-call (step w) done u e1 ∙ ap (λ b. (b, u)) ok, ap k (sym same) ∙ e4)

  -- The same where the statement is returned at once.
  Gives-last :
      (stmt : ℕ) (step : World → Bool × World) (w : World) (a : ℕ) (v : World)
      → Gives (call step >>= λ done. close_unless M stmt done >>= λ _. return stmt) w a v
      → (step w ≡ (true, v)) × (stmt ≡ a)
  Gives-last stmt step w a v e =
      let (u, e1, e2) = Gives-checked stmt step (return stmt) w a v e in
      (e1 ∙ ap (λ s. (true, s)) (cc e2), cc e2)

  Gives-prepare_statement :
      (conn : ℕ) (query : List ℕ) (params : List Param) (w : World) (stmt : ℕ) (v : World)
      → Gives (prepare_statement M conn query params) w stmt v
      → (w1 : World) × (w2 : World) × (mysql_stmt_init conn w ≡ (some stmt, w1))
        × (mysql_stmt_prepare stmt query w1 ≡ (true, w2))
        × (mysql_stmt_bind_param stmt params w2 ≡ (true, v))
  unfolding prepare_statement
  Gives-prepare_statement conn query params w stmt v e =
      let check : ℕ → (World → Bool × World) → Io World ℕ → Io World ℕ =
        λ s step k. call step >>= λ done. close_unless M s done >>= λ _. k in
      let rest : ℕ → Io World ℕ = λ s.
        check s (mysql_stmt_prepare s query)
          (check s (mysql_stmt_bind_param s params) (return s)) in
      let (p, w1, e1, e2) =
        Gives-bind (call (mysql_stmt_init conn) w) (λ p. or_refuse M (λ u. u) p >>= rest) stmt v
          e in
      let (s, u, e3, e4) = Gives-bind (or_refuse M (λ u. u) p w1) rest stmt v e2 in
      let (made, same) = Gives-or_refuse (λ u. u) p w1 s u e3 in
      let (w2, prepared, e5) =
        Gives-checked s (mysql_stmt_prepare s query)
          (check s (mysql_stmt_bind_param s params) (return s)) u stmt v e4 in
      let (bound, eq) = Gives-last s (mysql_stmt_bind_param s params) w2 stmt v e5 in
      (
        w1,
        w2,
        Gives-call (mysql_stmt_init conn w) p w1 e1 ∙ ap (λ q. (q, w1)) (made ∙ ap some eq),
        rw (eq, same) at prepared,
        rw eq at bound,
      )

  pub select_rows-Selected :
      (conn : ℕ) (query : List ℕ) (params : List Param) (columns : List Column) (w : World)
      (rows : ℕ × ℕ) (v : World)
      → Gives (select_rows M conn query params columns) w rows v
      → Selected conn query params columns w rows.0 rows.1 v
  unfolding select_rows execute_statement
  select_rows-Selected conn query params columns w rows v e =
      let execute : ℕ → Io World ℕ =
        λ s. call (mysql_stmt_execute s) >>= λ done. close_unless M s done >>= λ _. return s in
      let bind : ℕ → ℕ → Io World (ℕ × ℕ) =
        λ s r. tell (mysql_stmt_bind_result s columns) >>= λ _. return (s, r) in
      let describe : ℕ → Io World (ℕ × ℕ) = λ s. call (mysql_stmt_result_metadata s) >>= λ p.
      or_refuse M (mysql_stmt_close s) p >>= bind s in
      let (s, w4, e1, e2) =
        Gives-bind (execute_statement M conn query params w) describe rows v e in
      let (s0, w3, e3, e4) = Gives-bind (prepare_statement M conn query params w) execute s w4 e1 in
      let (w1, w2, init, prepared, bound) = Gives-prepare_statement conn query params w s0 w3 e3 in
      let (executed, same) = Gives-last s0 (mysql_stmt_execute s0) w3 s w4 e4 in
      let (p, w5, e5, e6) =
        Gives-bind (call (mysql_stmt_result_metadata s) w4)
          (λ p. or_refuse M (mysql_stmt_close s) p >>= bind s) rows v e2 in
      let (r, u, e7, e8) = Gives-bind (or_refuse M (mysql_stmt_close s) p w5) (bind s) rows v e6 in
      let (made, still) = Gives-or_refuse (mysql_stmt_close s) p w5 r u e7 in
      let (pair, last) = Gives-return (s, r) (mysql_stmt_bind_result s columns u) rows v e8 in
      let stmt : s ≡ rows.0 = ap (λ q. q.0) pair in
      let result : r ≡ rows.1 = ap (λ q. q.1) pair in
      record {
        w1 = w1;
        init = rw (same ∙ stmt) at init;
        w2 = w2;
        prepared = rw (same ∙ stmt) at prepared;
        w3 = w3;
        bound = rw (same ∙ stmt) at bound;
        w4 = w4;
        executed = rw (same ∙ stmt) at executed;
        w5 = w5;
        described = rw stmt at (
            Gives-call (mysql_stmt_result_metadata s w4) p w5 e5
            ∙ ap (λ q. (q, w5)) (made ∙ ap some result));
        at =
            sym last
            ∙ ap (λ x. mysql_stmt_bind_result s columns x) still
            ∙ ap (λ x. mysql_stmt_bind_result x columns w5) stmt;
      }
