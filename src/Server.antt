-- ===== src/Server.antt =====
-- server/include/qqchat/connection_manager.hpp, server/src/connection_manager.cpp and
-- server/src/chat_server.cpp: the connections, their registry, and the asynchronous reads and
-- writes. A Connection object is kept under its address, a number, since the registry and the
-- pending operations share it. The lock of the registry is held for one operation at a time.
pub mod Objects
use qq_copy.Base.{
  ℕ, ◌*◌, List, [], ◌∷◌, ◌++◌, Bool, true, false, Option, none, some, ltb, ◌&&◌, if◌then◌else◌,
}
use qq_copy.Base.{text_eq, nat_eq}
use qq_copy.Base.Int.{ℤ, pos, int_beq, int_eq}
use qq_copy.Base.Assoc.{Assoc, lookup, insert, erase}
use qq_copy.Outcome.{ok, malformed, fault}
use qq_copy.Wire.{read_uint32}
use qq_copy.Services.{Services}

-- The asynchronous read that a connection waits for, if any.
pub data Reading : Type 0 where
  not_reading reading_header : Reading
  reading_body : ℕ → Reading

-- `in_flight` is the buffer of the pending `async_write`, `socket_out` what was written before.
pub record Connection : Type 0 where
  pub conn_id : List ℕ
  pub user_id : ℤ
  pub header_buffer : List ℕ
  pub reading : Reading
  pub write_buffer : List (List ℕ)
  pub in_flight : Option (List ℕ)
  pub socket_out : List (List ℕ)

-- `posted` holds the functions given to `boost::asio::post` that have not run, oldest first: each
-- is a connection and the data to send.
pub record Server (S : Services) : Type 0 where
  pub objects : Assoc ℕ Connection
  pub connections : Assoc (List ℕ) ℕ
  pub user_to_conn : Assoc ℤ (List ℕ)
  pub posted : List (ℕ × List ℕ)
  pub db : S.Db
  pub cache : S.Cache

-- The constructor of Connection, with the random id given.
unfoldable pub new_connection : List ℕ → Connection
new_connection id = record {
  conn_id = id;
  user_id = pos 0;
  header_buffer = [];
  reading = not_reading;
  write_buffer = [];
  in_flight = none;
  socket_out = [];
}

-- do_write asks for the write of one buffer.
unfoldable pub do_write : List ℕ → Connection → Connection
do_write bytes conn = record conn { in_flight = some bytes }

-- The function that `send` has posted.
unfoldable pub append_write : List ℕ → Connection → Connection
unfolding do_write
append_write bytes conn = elim conn.write_buffer [
  | [] ↦ do_write bytes (record conn { write_buffer = bytes ∷ [] })
  | front ∷ rest ↦ record conn { write_buffer = conn.write_buffer ++ bytes ∷ [] }
]

-- The completion of a write without error, and what it does with the buffer that is left. In C++
-- `pop_front` of an empty queue is undefined; here it leaves the connection as it is.
unfoldable pub next_write : List (List ℕ) → Connection → Connection
unfolding do_write
next_write [] conn = conn
next_write (front ∷ rest) conn = do_write front conn

unfoldable pub finish_write : List ℕ → Connection → Connection
unfolding next_write
finish_write written conn = elim conn.write_buffer [
  | [] ↦ conn
  | front ∷ rest ↦ next_write rest (record conn {
    write_buffer = rest;
    in_flight = none;
    socket_out = conn.socket_out ++ written ∷ [];
  })
]

module _ {S : Services} where
  -- A change of the object at an address.
  unfoldable pub update : ℕ → (Connection → Connection) → Server S → Server S
  update h f s = elim (lookup h s.objects) [
    | none ↦ s
    | some conn ↦ record s { objects = insert h (f conn) s.objects }
  ]

  unfoldable pub get_id : ℕ → Server S → List ℕ
  get_id h s = elim (lookup h s.objects) [ none ↦ [] | some conn ↦ conn.conn_id ]

  unfoldable pub get_user_id : ℕ → Server S → ℤ
  get_user_id h s = elim (lookup h s.objects) [ none ↦ pos 0 | some conn ↦ conn.user_id ]

  unfoldable pub set_user_id : ℕ → ℤ → Server S → Server S
  set_user_id h user_id = update h (λ conn. record conn { user_id = user_id })

  -- ConnectionManager::start registers the connection, and does nothing else.
  unfoldable pub manager_start : ℕ → Server S → Server S
  manager_start h s = record s { connections = insert (get_id h s) h s.connections }

  -- ConnectionManager::stop
  unfoldable pub manager_stop : ℕ → Server S → Server S
  manager_stop h s =
      let s1 =
        if int_beq (get_user_id h s) (pos 0)
        then s
        else record s { user_to_conn = erase (get_user_id h s) s.user_to_conn } in
      record s1 { connections = erase (get_id h s) s1.connections }

  unfoldable pub stop_all : Server S → Server S
  stop_all s = record s { connections = []; user_to_conn = [] }

  unfoldable pub is_user_online : ℤ → Server S → Bool
  is_user_online u s = elim (lookup u s.user_to_conn) [ none ↦ false | some _ ↦ true ]

  unfoldable pub set_user_connection : ℤ → List ℕ → Server S → Server S
  set_user_connection u id s = record s { user_to_conn = insert u id s.user_to_conn }

  unfoldable pub remove_user_connection : ℤ → Server S → Server S
  remove_user_connection u s = record s { user_to_conn = erase u s.user_to_conn }

  unfoldable pub get_user_connection_id : ℤ → Server S → List ℕ
  get_user_connection_id u s = elim (lookup u s.user_to_conn) [ none ↦ [] | some id ↦ id ]

  -- Connection::send posts a function that holds a copy of the data.
  unfoldable pub send : ℕ → List ℕ → Server S → Server S
  send h bytes s = record s { posted = s.posted ++ (h, bytes) ∷ [] }

  unfoldable pub send_to_user : ℤ → List ℕ → Server S → Server S × Bool
  unfolding send
  send_to_user u bytes s = elim (lookup u s.user_to_conn) [
    | none ↦ (s, false)
    | some id ↦ elim (lookup id s.connections) [
      | none ↦ (s, false)
      | some h ↦ (send h bytes s, true)
    ]
  ]

  -- Connection::start and do_read_header ask for a header.
  unfoldable pub do_read_header : ℕ → Server S → Server S
  do_read_header h = update h (λ conn. record conn { reading = reading_header })

  unfoldable pub connection_start : ℕ → Server S → Server S
  unfolding do_read_header
  connection_start h = do_read_header h

  -- The completion of a header. The length is that of bytes 3 to 6, as in `read_uint32`.
  unfoldable pub accept_header : ℕ → List ℕ → ℕ → Server S → Server S
  accept_header h header body_length s =
      if ltb 0 body_length && ltb body_length (1024 * 1024)
      then update h
          (λ conn. record conn { header_buffer = header; reading = reading_body body_length }) s
      else manager_stop h
          (update h (λ conn. record conn { header_buffer = header; reading = not_reading }) s)

  unfoldable pub read_header_done : ℕ → List ℕ → Server S → Server S
  unfolding accept_header
  read_header_done h header s = elim (read_uint32 header 3) [
    | ok body_length ↦ accept_header h header body_length s
    | malformed ↦ s
    | fault ↦ s
  ]

  -- The completion of a read with an error.
  unfoldable pub read_failed : ℕ → Server S → Server S
  unfolding manager_stop
  read_failed h s = manager_stop h (update h (λ conn. record conn { reading = not_reading }) s)

  -- The completion of a write with an error: the buffer is kept.
  unfoldable pub write_failed : ℕ → Server S → Server S
  unfolding manager_stop
  write_failed h s = manager_stop h (update h (λ conn. record conn { in_flight = none }) s)

  -- do_accept: a new Connection at a new address, and its registration.
  unfoldable pub do_accept : ℕ → List ℕ → Server S → Server S
  unfolding manager_start new_connection
  do_accept h id s = manager_start h (record s { objects = insert h (new_connection id) s.objects })
