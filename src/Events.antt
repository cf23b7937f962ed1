-- ===== src/Events.antt =====
-- The server as its event loop runs it (boost::asio with one thread, server/src/chat_server.cpp):
-- each step is the completion of one asynchronous operation. The environment chooses the order,
-- the bytes and the errors; an operation completes only where it is pending.
pub mod EndToEnd
pub mod Login
pub mod Framing
pub mod NeverReads
pub mod Registry
pub mod Writes
use mathlib.Core.Option
use qq_copy.Base.{ℕ, ◌≡◌, ◌≢◌, List, [], ◌∷◌, length, none, some, nat_eq}
use qq_copy.Base.Int.{ℤ}
use qq_copy.Base.Assoc.{lookup}
use qq_copy.Wire.{IsBytes}
use qq_copy.Services.{Services}
use qq_copy.Server.{
  Server, Connection, not_reading, reading_header, reading_body, do_accept, connection_start,
  read_header_done, read_failed, append_write, finish_write, write_failed, update, stop_all,
}
use qq_copy.Handlers.Dispatch.{read_body_done}

-- The function that `send` has posted, run.
unfoldable pub run_posted : {S : Services} → ℕ → List ℕ → List (ℕ × List ℕ) → Server S → Server S
run_posted h bytes rest s = update h (append_write bytes) (record s { posted = rest })

-- What the program does of itself. Nothing in it calls Connection::start.
pub data Step {S : Services} (s : Server S) : Server S → Type 0 where
  accepts : (h : ℕ) (id : List ℕ) → lookup h s.objects ≡ none → Step s (do_accept h id s)
  reads_header :
      (h : ℕ) (conn : Connection) (header : List ℕ)
      → lookup h s.objects ≡ some conn
      → conn.reading ≡ reading_header
      → length header ≡ 7
      → IsBytes header
      → Step s (read_header_done h header s)
  reads_body :
      (h : ℕ) (conn : Connection) (len : ℕ) (body : List ℕ) (now : ℤ) {t : Server S}
      → lookup h s.objects ≡ some conn
      → conn.reading ≡ reading_body len
      → length body ≡ len
      → IsBytes body
      → read_body_done h conn.header_buffer body now s ≡ some t
      → Step s t
  fails_reading :
      (h : ℕ) (conn : Connection)
      → lookup h s.objects ≡ some conn
      → conn.reading ≢ not_reading
      → Step s (read_failed h s)
  runs_posted :
      (h : ℕ) (bytes : List ℕ) (rest : List (ℕ × List ℕ))
      → s.posted ≡ (h, bytes) ∷ rest
      → Step s (run_posted h bytes rest s)
  writes :
      (h : ℕ) (conn : Connection) (bytes : List ℕ)
      → lookup h s.objects ≡ some conn
      → conn.in_flight ≡ some bytes
      → Step s (update h (finish_write bytes) s)
  fails_writing :
      (h : ℕ) (conn : Connection) (bytes : List ℕ)
      → lookup h s.objects ≡ some conn
      → conn.in_flight ≡ some bytes
      → Step s (write_failed h s)
  stops : Step s (stop_all s)

-- The steps of a server whose connections may also be started, which takes one more call than the
-- program makes.
pub data StartedStep {S : Services} (s : Server S) : Server S → Type 0 where
  step : {t : Server S} → Step s t → StartedStep s t
  starts :
      (h : ℕ) (conn : Connection)
      → lookup h s.objects ≡ some conn
      → conn.reading ≡ not_reading
      → StartedStep s (connection_start h s)

unfoldable pub initial : {S : Services} → S.Db → S.Cache → Server S
initial db cache = record {
  objects = [];
  connections = [];
  user_to_conn = [];
  posted = [];
  db = db;
  cache = cache;
}

pub data Reach {S : Services} (s : Server S) : Server S → Type 0 where
  here : Reach s s
  next : {t u : Server S} → Reach s t → Step t u → Reach s u

pub data StartedReach {S : Services} (s : Server S) : Server S → Type 0 where
  here : StartedReach s s
  next : {t u : Server S} → StartedReach s t → StartedStep t u → StartedReach s u
