-- ===== src/Mysql.antt =====
-- The MySQL client library, which server/src/database_pool.cpp calls: a parameter. Pointers it gives
-- out are numbers, a null pointer is `none`, and a return code is `true` where it reports success.
pub mod Calls
pub mod Ledger
pub mod Bookkeeping
pub mod Counts
pub mod Selected
use qq_copy.Base.{ℕ, List, [], ◌∷◌, Bool, Option, none, some, ◌==◌, if◌then◌else◌}
use qq_copy.Base.Int.{ℤ}
use qq_copy.Io.{Io, or_bad_read}

-- A MYSQL_BIND of a statement's parameter.
pub data Param : Type 0 where
  text_param : List ℕ → Param
  int_param : ℤ → Param

-- A MYSQL_BIND of a result column: MYSQL_TYPE_LONG, or MYSQL_TYPE_STRING with its buffer_length.
pub data Column : Type 0 where
  int_column : Column
  text_column : ℕ → Column

-- What a variable bound to a column holds: nothing yet, an int, or the bytes written to a char array.
pub data Buffer : Type 0 where
  unset : Buffer
  number : ℤ → Buffer
  chars : List ℕ → Buffer

-- The variables of a result, by the index of their column.
abbrev pub Row : Type 0
Row = ℕ → Buffer

pub record Mysql : Type 1 where
  pub World : Type 0
  pub mysql_init : World → Option ℕ × World
  pub mysql_options : ℕ → List ℕ → World → World
  pub mysql_real_connect : ℕ → List ℕ → List ℕ → List ℕ → List ℕ → ℤ → World → Bool × World
  pub mysql_close : ℕ → World → World
  pub mysql_ping : ℕ → World → Bool × World
  pub mysql_stmt_init : ℕ → World → Option ℕ × World
  pub mysql_stmt_prepare : ℕ → List ℕ → World → Bool × World
  pub mysql_stmt_bind_param : ℕ → List Param → World → Bool × World
  pub mysql_stmt_execute : ℕ → World → Bool × World
  pub mysql_stmt_insert_id : ℕ → World → ℕ × World
  pub mysql_stmt_result_metadata : ℕ → World → Option ℕ × World
  pub mysql_stmt_bind_result : ℕ → List Column → World → World
  -- the bound variables before and after the call; a NULL leaves its variable as it was
  pub mysql_stmt_fetch : ℕ → Row → World → (Bool × Row) × World
  pub mysql_free_result : ℕ → World → World
  pub mysql_stmt_close : ℕ → World → World

-- A char array as a C string: the bytes before the first NUL.
unfoldable pub c_string : List ℕ → Option (List ℕ)
c_string [] = none
c_string (c ∷ cs) =
    let rest = c_string cs in
    if c == 0 then some [] else elim rest [ none ↦ none | some s ↦ some (c ∷ s) ]

unfoldable pub text_of : Buffer → Option (List ℕ)
unfolding c_string
text_of unset = none
text_of (number n) = none
text_of (chars cs) = c_string cs

unfoldable pub int_of : Buffer → Option ℤ
int_of unset = none
int_of (number n) = some n
int_of (chars cs) = none

module _ {W : Type 0} where
  unfoldable pub read_text : Buffer → Io W (List ℕ)
  unfolding text_of
  read_text b = or_bad_read (text_of b)

  unfoldable pub read_int : Buffer → Io W ℤ
  unfolding int_of
  read_int b = or_bad_read (int_of b)

abbrev pub unset_row : Row
unset_row i = unset
