-- ===== src/Mysql/Ledger.antt =====
-- A client library that keeps books over the pointers it gives out and takes back, for the use that
-- server/src/database_pool.cpp makes of it. The books say whether every call was made on an object
-- that was open at the time, and what is open now.
use qq_copy.Base.{
  ℕ, ◌≡◌, refl, List, [], ◌∷◌, Bool, true, false, Option, none, some, ◌==◌, ==_iff, ◌&&◌,
  if◌then◌else◌,
}
use qq_copy.Io.{Exit, returned, refused, thrown, bad_read, endless}
use qq_copy.Mysql.{Mysql}

pub record Ledger : Type 0 where
  pub connections : List ℕ
  pub statements : List ℕ
  pub results : List ℕ
  pub sound : Bool

abbrev pub member : ℕ → List ℕ → Bool
member h [] = false
member h (x ∷ xs) = if h == x then true else member h xs

-- Without its first occurrence.
abbrev pub remove : ℕ → List ℕ → List ℕ
remove h [] = []
remove h (x ∷ xs) = let rest = remove h xs in if h == x then xs else x ∷ rest

abbrev pub use_connection : ℕ → Ledger → Ledger
use_connection h l = record l { sound = member h l.connections && l.sound }

abbrev pub use_statement : ℕ → Ledger → Ledger
use_statement h l = record l { sound = member h l.statements && l.sound }

abbrev pub end_connection : ℕ → Ledger → Ledger
end_connection h l = record (use_connection h l) { connections = remove h l.connections }

abbrev pub end_statement : ℕ → Ledger → Ledger
end_statement h l = record (use_statement h l) { statements = remove h l.statements }

abbrev pub end_result : ℕ → Ledger → Ledger
end_result h l = record l { results = remove h l.results; sound = member h l.results && l.sound }

abbrev pub opened_connection : Option ℕ → Ledger → Ledger
opened_connection none l = l
opened_connection (some h) l = record l { connections = h ∷ l.connections }

abbrev pub new_statement : Option ℕ → Ledger → Ledger
new_statement none l = l
new_statement (some h) l = record l { statements = h ∷ l.statements }

abbrev pub new_result : Option ℕ → Ledger → Ledger
new_result none l = l
new_result (some h) l = record l { results = h ∷ l.results }

-- A call that the books do not change by more than `keep`.
abbrev watch : {W A : Type 0} → (W → A × W) → (A → Ledger → Ledger) → W × Ledger → A × (W × Ledger)
watch f keep s = let (a, w) = f s.0 in (a, (w, keep a s.1))

abbrev watch_only : {W : Type 0} → (W → W) → (Ledger → Ledger) → W × Ledger → W × Ledger
watch_only f keep s = (f s.0, keep s.1)

abbrev pub watched : Mysql → Mysql
watched M = record {
  World = M.World × Ledger;
  mysql_init = watch M.mysql_init opened_connection;
  mysql_options = λ conn name. watch_only (M.mysql_options conn name) (use_connection conn);
  mysql_real_connect = λ conn host user pass db port.
      watch (M.mysql_real_connect conn host user pass db port) (λ _. use_connection conn);
  mysql_close = λ conn. watch_only (M.mysql_close conn) (end_connection conn);
  mysql_ping = λ conn. watch (M.mysql_ping conn) (λ _. use_connection conn);
  mysql_stmt_init =
      λ conn. watch (M.mysql_stmt_init conn) (λ p l. new_statement p (use_connection conn l));
  mysql_stmt_prepare =
      λ stmt query. watch (M.mysql_stmt_prepare stmt query) (λ _. use_statement stmt);
  mysql_stmt_bind_param =
      λ stmt params. watch (M.mysql_stmt_bind_param stmt params) (λ _. use_statement stmt);
  mysql_stmt_execute = λ stmt. watch (M.mysql_stmt_execute stmt) (λ _. use_statement stmt);
  mysql_stmt_insert_id = λ stmt. watch (M.mysql_stmt_insert_id stmt) (λ _. use_statement stmt);
  mysql_stmt_result_metadata = λ stmt.
      watch (M.mysql_stmt_result_metadata stmt) (λ p l. new_result p (use_statement stmt l));
  mysql_stmt_bind_result =
      λ stmt columns. watch_only (M.mysql_stmt_bind_result stmt columns) (use_statement stmt);
  mysql_stmt_fetch = λ stmt row. watch (M.mysql_stmt_fetch stmt row) (λ _. use_statement stmt);
  mysql_free_result = λ result. watch_only (M.mysql_free_result result) (end_result result);
  mysql_stmt_close = λ stmt. watch_only (M.mysql_stmt_close stmt) (end_statement stmt);
}

-- Books without a wrong call.
abbrev pub books : List ℕ → List ℕ → List ℕ → Ledger
books conns stmts ress = record {
  connections = conns;
  statements = stmts;
  results = ress;
  sound = true;
}

pub ==-refl : (h : ℕ) → (h == h) ≡ true
==-refl h = (==_iff h h).1 refl

pub member-head : (h : ℕ) (l : List ℕ) → member h (h ∷ l) ≡ true
member-head h l = rw (==-refl h) refl

pub remove-head : (h : ℕ) (l : List ℕ) → remove h (h ∷ l) ≡ l
remove-head h l = rw (==-refl h) refl

module _ {C S R : List ℕ} where
  pub use_connection-books :
      (h : ℕ) → member h C ≡ true → use_connection h (books C S R) ≡ books C S R
  use_connection-books h e = rw e refl

  pub use_statement-books : (h : ℕ) → use_statement h (books C (h ∷ S) R) ≡ books C (h ∷ S) R
  use_statement-books h = rw (==-refl h) refl

  pub end_statement-books : (h : ℕ) → end_statement h (books C (h ∷ S) R) ≡ books C S R
  end_statement-books h = rw (==-refl h) refl

  pub end_result-books : (h : ℕ) → end_result h (books C S (h ∷ R)) ≡ books C S R
  end_result-books h = rw (==-refl h) refl

-- The books where an action has returned, or failed; otherwise they only stay without a wrong call.
abbrev pub After : {W A : Type 0} → (A → Ledger) → Ledger → Exit A × (W × Ledger) → Type 0
After done failed (returned a, (w, l)) = l ≡ done a
After done failed (refused, (w, l)) = l ≡ failed
After done failed (thrown, (w, l)) = l.sound ≡ true
After done failed (bad_read, (w, l)) = l.sound ≡ true
After done failed (endless, (w, l)) = l.sound ≡ true
