-- ===== src/Examples/Connected.antt =====
-- Runs of the theorems about the client's threads.
use qq_copy.Base.{ℕ, List, ◌≡◌, ◌≢◌, refl, [], ◌∷◌, All, true, some}
use qq_copy.ChatClient.Worker.{
  Connector, connecting, reading, idle, new_client, set_status_callback, report_status,
  begin_disconnect, close_and_join, close_socket, close_open, finish_disconnect, made_socket,
  make_socket, connect_succeeded, calls_connect, sets_callback, closes, joins, makes_socket,
  succeeds, Steps, here, next,
}
use qq_copy.Base.{ℕ, List}
use qq_copy.ChatClient.Status.{TellsConnection, has_thread, status_is_true}
use qq_copy.ChatClient.Leak.{IsOpen, socket_is_lost}

-- A client that sets its callback, connects, and has its socket 5 connected.
abbrev connected_client : Connector
connected_client = record {
  running = true;
  connected = true;
  socket_fd = some 5;
  status_callback = true;
  worker = reading;
  caller = idle;
  sockets = 5 ∷ [];
  reports = (1, true) ∷ [];
  read_buffer = [];
  packets = [];
}

Steps-connected_client : Steps new_client connected_client
unfolding set_status_callback report_status begin_disconnect close_and_join close_socket close_open
    finish_disconnect make_socket connect_succeeded
Steps-connected_client =
    let called = next (next here (sets_callback true refl)) (calls_connect refl) in
    let joined = next (next called (closes true refl)) (joins true refl tt) in
    next (next joined (makes_socket (made_socket 5) refl tt)) (succeeds refl)

status_is_true_example :
    All TellsConnection connected_client.reports
    × (connected_client.connected ≡ true → connected_client.worker ≡ reading)
    × (connected_client.caller ≡ idle
        → connected_client.running ≡ has_thread connected_client.worker)
status_is_true_example = status_is_true Steps-connected_client

socket_is_lost_example :
    (d : Connector) × Steps new_client d
    × (d.caller ≡ idle)
    × (d.worker ≡ connecting)
    × (d.socket_fd ≡ some 6)
    × ((e : Connector) → Steps d e → IsOpen 5 e.sockets × (e.socket_fd ≢ some 5))
socket_is_lost_example = socket_is_lost new_client refl refl refl 5 6 tt ((λ e. cc), tt)

-- A packet on the new connection.
abbrev response_bytes : List ℕ
response_bytes = 1 ∷ 0 ∷ 14 ∷ 0 ∷ 0 ∷ 0 ∷ 2 ∷ 0 ∷ 0 ∷ []

-- The same with the first byte of a packet in its buffer.
abbrev leftover_client : Connector
leftover_client = record connected_client { read_buffer = 1 ∷ [] }
