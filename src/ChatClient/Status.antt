-- ===== src/ChatClient/Status.antt =====
-- What the status callback and `is_connected` tell of the worker thread
-- (android/app/src/main/cpp/chat_client.cpp).
use qq_copy.Base.{
  ℕ, ◌≡◌, ◌≢◌, refl, sym, ◌∙◌, ap, List, [], ◌∷◌, ◌++◌, All, All-append, Bool, true, false,
  Bool-cases, inl, inr, if◌then◌else◌,
}
use qq_copy.ChatClient.Worker.{
  Connector, Worker, no_thread, starting, connecting, reading, finished, idle, new_client,
  set_status_callback, report_status, close_socket, begin_disconnect, close_and_join,
  finish_disconnect, Made, bad_address, no_socket, made_socket, make_socket, connect_failed,
  connect_succeeded, end_loop, Step, calls_connect, calls_disconnect, sets_callback, closes, joins,
  makes_socket, fails, succeeds, receives, handle_received, ends_loop, Steps, here, next,
}

-- Whether there is a thread to join.
abbrev pub has_thread : Worker → Bool
has_thread no_thread = false
has_thread starting = true
has_thread connecting = true
has_thread reading = true
has_thread finished = true

abbrev pub status_of : Bool → ℕ
status_of connected = if connected then 1 else 0

-- A call of the callback that tells what `is_connected` returns.
abbrev pub TellsConnection : ℕ × Bool → Type 0
TellsConnection (status, connected) = status ≡ status_of connected

record IsTold (c : Connector) : Type 0 where
  told : All TellsConnection c.reports
  reads : c.connected ≡ true → c.worker ≡ reading
  runs : c.caller ≡ idle → c.running ≡ has_thread c.worker

TellsConnection-reported :
    (callback connected : Bool) (status : ℕ) (reports : List (ℕ × Bool))
    → status ≡ status_of connected
    → All TellsConnection reports
    → All TellsConnection (if callback then reports ++ (status, connected) ∷ [] else reports)
TellsConnection-reported true connected status reports e told =
    All-append TellsConnection reports ((status, connected) ∷ []) told (e, tt)
TellsConnection-reported false connected status reports e told = told

module _ (c : Connector) (sound : IsTold c) where
  not_connected : (worker : Worker) → c.worker ≡ worker → worker ≢ reading → c.connected ≡ false
  not_connected worker e other = elim (Bool-cases c.connected) [
    | inl on ↦ absurd (other (sym e ∙ sound.reads on))
    | inr off ↦ off
  ]

  IsTold-make_socket : (made : Made) → c.worker ≡ starting → IsTold (make_socket made c)
  unfolding make_socket report_status
  IsTold-make_socket bad_address e =
      let off = not_connected starting e (λ h. cc) in
      record {
        told =
            TellsConnection-reported c.status_callback c.connected 0 c.reports (rw off refl)
              sound.told;
        reads = λ h. cc;
        runs = λ h. sound.runs h ∙ ap has_thread e;
      }
  IsTold-make_socket no_socket e =
      let off = not_connected starting e (λ h. cc) in
      record {
        told =
            TellsConnection-reported c.status_callback c.connected 0 c.reports (rw off refl)
              sound.told;
        reads = λ h. cc;
        runs = λ h. sound.runs h ∙ ap has_thread e;
      }
  IsTold-make_socket (made_socket fd) e =
      let off = not_connected starting e (λ h. cc) in
      record { told = sound.told; reads = λ h. cc; runs = λ h. sound.runs h ∙ ap has_thread e }

  IsTold-connect_failed : c.worker ≡ connecting → IsTold (connect_failed c)
  unfolding connect_failed close_socket report_status
  IsTold-connect_failed e =
      let off = not_connected connecting e (λ h. cc) in
      record {
        told =
            TellsConnection-reported c.status_callback c.connected 0 c.reports (rw off refl)
              sound.told;
        reads = λ h. cc;
        runs = λ h. sound.runs h ∙ ap has_thread e;
      }

  IsTold-connect_succeeded : c.worker ≡ connecting → IsTold (connect_succeeded c)
  unfolding connect_succeeded report_status
  IsTold-connect_succeeded e = record {
    told = TellsConnection-reported c.status_callback true 1 c.reports refl sound.told;
    reads = λ h. refl;
    runs = λ h. sound.runs h ∙ ap has_thread e;
  }

  IsTold-end_loop : c.worker ≡ reading → IsTold (end_loop c)
  unfolding end_loop report_status
  IsTold-end_loop e = record {
    told = TellsConnection-reported c.status_callback false 0 c.reports refl sound.told;
    reads = λ h. cc;
    runs = λ h. sound.runs h ∙ ap has_thread e;
  }

  IsTold-finish_disconnect : (again : Bool) → IsTold (finish_disconnect again c)
  unfolding finish_disconnect
  IsTold-finish_disconnect true = record { told = sound.told; reads = λ h. cc; runs = λ h. refl }
  IsTold-finish_disconnect false = record { told = sound.told; reads = λ h. cc; runs = λ h. refl }

  Step-IsTold : {d : Connector} → Step c d → IsTold d
  unfolding begin_disconnect set_status_callback close_and_join close_socket handle_received
  Step-IsTold (calls_connect e) = record { told = sound.told; reads = sound.reads; runs = λ h. cc }
  Step-IsTold (calls_disconnect e) = record {
    told = sound.told;
    reads = sound.reads;
    runs = λ h. cc;
  }
  Step-IsTold (sets_callback callback e) = record {
    told = sound.told;
    reads = sound.reads;
    runs = sound.runs;
  }
  Step-IsTold (closes again e) = record { told = sound.told; reads = sound.reads; runs = λ h. cc }
  Step-IsTold (joins again e done) = IsTold-finish_disconnect again
  Step-IsTold (makes_socket made e free) = IsTold-make_socket made e
  Step-IsTold (fails e) = IsTold-connect_failed e
  Step-IsTold (succeeds e) = IsTold-connect_succeeded e
  Step-IsTold (receives bytes left packets e cut) = record {
    told = sound.told;
    reads = sound.reads;
    runs = sound.runs;
  }
  Step-IsTold (ends_loop e) = IsTold-end_loop e

Steps-IsTold : {c d : Connector} → Steps c d → IsTold c → IsTold d
Steps-IsTold here sound = sound
Steps-IsTold (next steps last) sound = Step-IsTold _ (Steps-IsTold steps sound) last

-- In every state that a new client comes to, in whatever order its threads take their steps: each
-- call of the status callback was told 1 where `is_connected` held at the time and 0 where it did
-- not; `is_connected` holds only while the worker thread is in read_loop; and where no call of
-- `connect` or `disconnect` is under way, `running_` is set exactly where there is a worker thread to
-- join.
pub status_is_true :
    {c : Connector}
    → Steps new_client c
    → All TellsConnection c.reports
      × (c.connected ≡ true → c.worker ≡ reading)
      × (c.caller ≡ idle → c.running ≡ has_thread c.worker)
status_is_true steps =
    let sound = Steps-IsTold steps (record { told = tt; reads = λ h. cc; runs = λ h. refl }) in
    (sound.told, sound.reads, sound.runs)
