-- ===== src/Database.antt =====
-- server/include/qqchat/database_pool.hpp and server/src/database_pool.cpp: the queue of connections
-- that DatabasePool keeps, how a method borrows one, and how its deleter gives it back. The methods
-- run one at a time: the server has one thread, so a wait for a connection is a wait for ever.
pub mod Users
pub mod Friends
pub mod Messages
pub mod Rows
pub mod Bodies
pub mod Resources
pub mod Calls
pub mod Restored
pub mod Lifetime
pub mod Queue
pub mod Waiting
pub mod Listed
pub mod Accepted
pub mod Termination
use qq_copy.Base.{ℕ, zero, suc, List, [], ◌∷◌, ◌++◌, Option, none, some, if◌then◌else◌}
use qq_copy.Base.Int.{ℤ, pos, negsuc}
use qq_copy.Base.Text.{utf8}
use qq_copy.Io.{Io, refused, Result, ended, blocked}
use qq_copy.Mysql.{Mysql}

-- `world` is the state of the client library and of the database behind it.
pub record DatabasePool (M : Mysql) : Type 0 where
  pub host : List ℕ
  pub port : ℤ
  pub db_name : List ℕ
  pub user : List ℕ
  pub password : List ℕ
  pub connections : List ℕ
  pub world : M.World

-- The result of `get_connection`: a pointer, a null pointer, or no return.
pub data Borrowed : Type 0 where
  borrowed : ℕ → Borrowed
  null_connection no_connection : Borrowed

abbrev pub rounds : ℤ → ℕ
rounds (pos n) = n
rounds (negsuc n) = 0

-- `if (conn) connections_.push(conn);`
abbrev pub push_created : Option ℕ → List ℕ → List ℕ
push_created (some conn) queue = queue ++ conn ∷ []
push_created none queue = queue

abbrev pub as_borrowed : Option ℕ → Borrowed
as_borrowed (some conn) = borrowed conn
as_borrowed none = null_connection

module _ {M : Mysql} where
  open M use {World, mysql_init, mysql_options, mysql_real_connect, mysql_close, mysql_ping}

  unfoldable pub connect : DatabasePool M → Option ℕ × World → Option ℕ × World
  connect p (none, w) = (none, w)
  connect p (some conn, w) =
      let w2 = mysql_options conn (utf8 "utf8mb4") w in
      let (connected, w3) = mysql_real_connect conn p.host p.user p.password p.db_name p.port w2 in
      if connected then (some conn, w3) else (none, mysql_close conn w3)

  -- The result is `none` for a null pointer.
  unfoldable pub create_connection : DatabasePool M → World → Option ℕ × World
  unfolding connect
  create_connection p w = connect p (mysql_init w)

  -- The loop of the constructor, by the rounds left.
  unfoldable pub fill_pool : ℕ → DatabasePool M → DatabasePool M
  unfolding create_connection
  fill_pool zero p = p
  fill_pool (suc n) p =
      let (made, w) = create_connection p p.world in
      fill_pool n (record p { connections = push_created made p.connections; world = w })

  unfoldable pub open_pool : List ℕ → ℤ → List ℕ → List ℕ → List ℕ → ℤ → World → DatabasePool M
  unfolding fill_pool
  open_pool host port db user pass pool_size w = fill_pool (rounds pool_size) (record {
    host = host;
    port = port;
    db_name = db;
    user = user;
    password = pass;
    connections = [];
    world = w;
  })

  unfoldable pub close_connections : List ℕ → DatabasePool M → DatabasePool M
  close_connections [] p = p
  close_connections (conn ∷ rest) p =
      close_connections rest (record p { connections = rest; world = mysql_close conn p.world })

  -- The destructor.
  unfoldable pub close_pool : DatabasePool M → DatabasePool M
  unfolding close_connections
  close_pool p = close_connections p.connections p

  -- The front connection, or a new one where it does not answer the ping.
  unfoldable pub take_connection : ℕ → DatabasePool M → Borrowed × World
  unfolding create_connection
  take_connection conn p =
      let (alive, w) = mysql_ping conn p.world in
      if alive
      then (borrowed conn, w)
      else let (made, w2) = create_connection p (mysql_close conn w) in (as_borrowed made, w2)

  unfoldable pub get_connection : DatabasePool M → Borrowed × DatabasePool M
  unfolding take_connection
  get_connection p = elim p.connections [
    | [] ↦ (no_connection, p)
    | conn ∷ rest ↦
        let (got, w) = take_connection conn p in (got, record p { connections = rest; world = w })
  ]

  -- The deleter of the pointer that `get_connection` returns.
  unfoldable pub release_connection : ℕ → DatabasePool M → DatabasePool M
  release_connection conn p = record p { connections = p.connections ++ conn ∷ [] }

  -- The deleter runs at each return, but not for a null pointer.
  unfoldable pub use_borrowed :
      {A : Type 0} → (ℕ → Io World A) → Borrowed × DatabasePool M → Result A × DatabasePool M
  unfolding release_connection
  use_borrowed body (borrowed conn, q) =
      let (r, w) = body conn q.world in (ended r, release_connection conn (record q { world = w }))
  use_borrowed body (null_connection, q) = (ended refused, q)
  use_borrowed body (no_connection, q) = (blocked, q)

  -- `auto conn = get_connection(); if (!conn) return false;` and the rest of a method.
  unfoldable pub with_connection :
      {A : Type 0} → (ℕ → Io World A) → DatabasePool M → Result A × DatabasePool M
  unfolding get_connection use_borrowed
  with_connection body p = use_borrowed body (get_connection p)

-- A method of the pool.
abbrev pub Method : Mysql → Type 0 → Type 0
Method M A = DatabasePool M → Result A × DatabasePool M
