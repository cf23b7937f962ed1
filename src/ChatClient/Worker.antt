-- ===== src/ChatClient/Worker.antt =====
-- The connection of the client (android/app/src/main/cpp/chat_client.cpp and chat_client.hpp): the
-- thread that calls `connect` and `disconnect`, and the worker thread. A step is a statement of a
-- thread with the calls in it, and the threads take their steps in any order.
use qq_copy.Base.{
  ℕ, ◌≡◌, ◌≢◌, List, [], ◌∷◌, ◌++◌, All, Bool, true, false, Option, none, some, ◌==◌, if◌then◌else◌,
}
use qq_copy.Outcome.{ok}
use qq_copy.ChatClient.{receive}

-- Where the worker thread stands: before `inet_pton`, at `::connect`, in read_loop, or returned.
pub data Worker : Type 0 where
  no_thread starting connecting reading finished : Worker

-- Where the calling thread stands: outside, at `if (socket_fd_ != -1)`, or at the join. The Boolean
-- says whether it is `connect` that has called `disconnect`.
pub data Caller : Type 0 where
  idle : Caller
  closing joining : Bool → Caller

-- `socket_fd` is `none` for -1, `read_buffer` is `read_buffer_`, and `packets` holds the packets that
-- were handed to handle_packet. `sockets` holds the descriptors that are open in the process, and
-- `reports` the calls of the status callback, each with what `is_connected` returns at the time.
pub record Connector : Type 0 where
  pub running : Bool
  pub connected : Bool
  pub socket_fd : Option ℕ
  pub status_callback : Bool
  pub worker : Worker
  pub caller : Caller
  pub sockets : List ℕ
  pub reports : List (ℕ × Bool)
  pub read_buffer : List ℕ
  pub packets : List (List ℕ)

-- The constructor.
abbrev pub new_client : Connector
new_client = record {
  running = false;
  connected = false;
  socket_fd = none;
  status_callback = false;
  worker = no_thread;
  caller = idle;
  sockets = [];
  reports = [];
  read_buffer = [];
  packets = [];
}

unfoldable pub set_status_callback : Bool → Connector → Connector
set_status_callback callback c = record c { status_callback = callback }

-- `if (status_callback_) { status_callback_(status); }`
unfoldable pub report_status : ℕ → Connector → Connector
report_status status c = record c {
  reports = if c.status_callback then c.reports ++ (status, c.connected) ∷ [] else c.reports;
}

-- The system's close.
unfoldable pub close_fd : ℕ → List ℕ → List ℕ
close_fd fd [] = []
close_fd fd (other ∷ sockets) =
    let rest = close_fd fd sockets in if fd == other then rest else other ∷ rest

unfoldable pub close_open : Option ℕ → List ℕ → List ℕ
unfolding close_fd
close_open none sockets = sockets
close_open (some fd) sockets = close_fd fd sockets

-- `close(socket_fd_); socket_fd_ = -1;`, where a close of -1 does nothing.
unfoldable pub close_socket : Connector → Connector
unfolding close_open
close_socket c = record c { socket_fd = none; sockets = close_open c.socket_fd c.sockets }

-- disconnect, up to the test of the socket.
unfoldable pub begin_disconnect : Bool → Connector → Connector
begin_disconnect again c = record c { running = false; caller = closing again }

unfoldable pub close_and_join : Bool → Connector → Connector
unfolding close_socket
close_and_join again c = record (close_socket c) { caller = joining again }

-- From the return of the join on, and in `connect` to the start of the new thread.
unfoldable pub finish_disconnect : Bool → Connector → Connector
finish_disconnect again c = record c {
  connected = false;
  running = again;
  worker = if again then starting else no_thread;
  caller = idle;
}

-- What `inet_pton` and `socket` come to.
pub data Made : Type 0 where
  bad_address no_socket : Made
  made_socket : ℕ → Made

-- run, up to `::connect`.
unfoldable pub make_socket : Made → Connector → Connector
unfolding report_status
make_socket bad_address c = record (report_status 0 c) { worker = finished }
make_socket no_socket c = record (report_status 0 (record c { socket_fd = none })) {
  worker = finished;
}
make_socket (made_socket fd) c = record c {
  socket_fd = some fd;
  sockets = fd ∷ c.sockets;
  worker = connecting;
}

-- The two ends of `::connect`.
unfoldable pub connect_failed : Connector → Connector
unfolding close_socket report_status
connect_failed c = record (report_status 0 (close_socket c)) { worker = finished }

unfoldable pub connect_succeeded : Connector → Connector
unfolding report_status
connect_succeeded c = record (report_status 1 (record c { connected = true })) { worker = reading }

-- A round of read_loop that has cut these packets off the buffer, and what is left of it.
unfoldable pub handle_received : List (List ℕ) → List ℕ → Connector → Connector
handle_received packets left c = record c { read_buffer = left; packets = c.packets ++ packets }

-- read_loop, from its loop on.
unfoldable pub end_loop : Connector → Connector
unfolding report_status
end_loop c = record (report_status 0 (record c { connected = false })) { worker = finished }

-- The join waits for the worker thread, if there is one.
abbrev pub Joined : Worker → Type 0
Joined no_thread = Unit {0}
Joined starting = ⊥
Joined connecting = ⊥
Joined reading = ⊥
Joined finished = Unit {0}

-- A new socket does not have the descriptor of one that is open.
abbrev pub IsNew : Made → List ℕ → Type 0
IsNew bad_address sockets = Unit {0}
IsNew no_socket sockets = Unit {0}
IsNew (made_socket fd) sockets = All (λ other. other ≢ fd) sockets

pub data Step (c : Connector) : Connector → Type 0 where
  calls_connect : c.caller ≡ idle → Step c (begin_disconnect true c)
  calls_disconnect : c.caller ≡ idle → Step c (begin_disconnect false c)
  sets_callback : (callback : Bool) → c.caller ≡ idle → Step c (set_status_callback callback c)
  closes : (again : Bool) → c.caller ≡ closing again → Step c (close_and_join again c)
  joins :
      (again : Bool)
      → c.caller ≡ joining again
      → Joined c.worker
      → Step c (finish_disconnect again c)
  makes_socket :
      (made : Made) → c.worker ≡ starting → IsNew made c.sockets → Step c (make_socket made c)
  fails : c.worker ≡ connecting → Step c (connect_failed c)
  -- also where `disconnect` has closed the socket while the call waited, and so for `recv`
  succeeds : c.worker ≡ connecting → Step c (connect_succeeded c)
  receives :
      (bytes left : List ℕ) (packets : List (List ℕ))
      → c.worker ≡ reading
      → receive c.read_buffer bytes ≡ ok (packets, left)
      → Step c (handle_received packets left c)
  ends_loop : c.worker ≡ reading → Step c (end_loop c)

pub data Steps (c : Connector) : Connector → Type 0 where
  here : Steps c c
  next : {d e : Connector} → Steps c d → Step d e → Steps c e
