-- ===== src/ChatClient/Leak.antt =====
-- Two calls of `connect` in a row (android/app/src/main/cpp/chat_client.cpp).
use qq_copy.Base.{
  ℕ, ◌≡◌, ◌≢◌, refl, ◌∙◌, List, [], ◌∷◌, All, true, Option, none, some, ◌==◌, ==_iff, Bool-cases,
  ◌⊎◌, inl, inr,
}
use qq_copy.ChatClient.Worker.{
  Connector, no_thread, connecting, idle, set_status_callback, report_status, close_socket,
  close_fd, close_open, begin_disconnect, close_and_join, finish_disconnect, Made, bad_address,
  no_socket, made_socket, make_socket, connect_failed, connect_succeeded, end_loop, IsNew, Step,
  calls_connect, calls_disconnect, sets_callback, closes, joins, makes_socket, fails, succeeds,
  receives, handle_received, ends_loop, Steps, here, next,
}

abbrev pub IsOpen : ℕ → List ℕ → Type 0
IsOpen fd [] = ⊥
IsOpen fd (other ∷ sockets) = (other ≡ fd) ⊎ IsOpen fd sockets

-- An open descriptor that is not the client's socket.
record IsLost (fd : ℕ) (c : Connector) : Type 0 where
  open_still : IsOpen fd c.sockets
  not_socket : c.socket_fd ≢ some fd

close_fd-IsOpen :
    (fd other : ℕ) (sockets : List ℕ)
    → other ≢ fd
    → IsOpen fd sockets
    → IsOpen fd (close_fd other sockets)
unfolding close_fd
close_fd-IsOpen fd other [] ne h = absurd h
close_fd-IsOpen fd other (s ∷ sockets) ne (inl e) = elim (Bool-cases (other == s)) [
  | inl same ↦ absurd (ne ((==_iff other s).0 same ∙ e))
  | inr differ ↦ rw differ (inl e)
]
close_fd-IsOpen fd other (s ∷ sockets) ne (inr h) = elim (Bool-cases (other == s)) [
  | inl same ↦ rw same (close_fd-IsOpen fd other sockets ne h)
  | inr differ ↦ rw differ (inr (close_fd-IsOpen fd other sockets ne h))
]

close_open-IsOpen :
    (fd : ℕ) (socket_fd : Option ℕ) (sockets : List ℕ)
    → socket_fd ≢ some fd
    → IsOpen fd sockets
    → IsOpen fd (close_open socket_fd sockets)
unfolding close_open
close_open-IsOpen fd none sockets ne h = h
close_open-IsOpen fd (some other) sockets ne h = close_fd-IsOpen fd other sockets (λ e. ne (cc)) h

new_is_other :
    (fd new : ℕ) (sockets : List ℕ)
    → All (λ other. other ≢ new) sockets
    → IsOpen fd sockets
    → fd ≢ new
new_is_other fd new [] free h same = absurd h
new_is_other fd new (s ∷ sockets) free (inl e) same = free.0 (e ∙ same)
new_is_other fd new (s ∷ sockets) free (inr h) same = new_is_other fd new sockets free.1 h same

module _ (fd : ℕ) (c : Connector) (lost : IsLost fd c) where
  IsLost-make_socket : (made : Made) → IsNew made c.sockets → IsLost fd (make_socket made c)
  unfolding make_socket report_status
  IsLost-make_socket bad_address free = record {
    open_still = lost.open_still;
    not_socket = lost.not_socket;
  }
  IsLost-make_socket no_socket free = record { open_still = lost.open_still; not_socket = λ h. cc }
  IsLost-make_socket (made_socket new) free =
      let other = new_is_other fd new c.sockets free lost.open_still in
      record { open_still = inr lost.open_still; not_socket = λ h. other (cc) }

  Step-IsLost : {d : Connector} → Step c d → IsLost fd d
  unfolding begin_disconnect set_status_callback close_and_join close_socket finish_disconnect
      connect_failed connect_succeeded end_loop report_status handle_received
  Step-IsLost (calls_connect e) = record {
    open_still = lost.open_still;
    not_socket = lost.not_socket;
  }
  Step-IsLost (calls_disconnect e) = record {
    open_still = lost.open_still;
    not_socket = lost.not_socket;
  }
  Step-IsLost (sets_callback callback e) = record {
    open_still = lost.open_still;
    not_socket = lost.not_socket;
  }
  Step-IsLost (closes again e) = record {
    open_still = close_open-IsOpen fd c.socket_fd c.sockets lost.not_socket lost.open_still;
    not_socket = λ h. cc;
  }
  Step-IsLost (joins again e done) = record {
    open_still = lost.open_still;
    not_socket = lost.not_socket;
  }
  Step-IsLost (makes_socket made e free) = IsLost-make_socket made free
  Step-IsLost (fails e) = record {
    open_still = close_open-IsOpen fd c.socket_fd c.sockets lost.not_socket lost.open_still;
    not_socket = λ h. cc;
  }
  Step-IsLost (receives bytes left packets e cut) = record {
    open_still = lost.open_still;
    not_socket = lost.not_socket;
  }
  Step-IsLost (succeeds e) = record { open_still = lost.open_still; not_socket = lost.not_socket }
  Step-IsLost (ends_loop e) = record { open_still = lost.open_still; not_socket = lost.not_socket }

Steps-IsLost : {c d : Connector} (fd : ℕ) → Steps c d → IsLost fd c → IsLost fd d
Steps-IsLost fd here lost = lost
Steps-IsLost fd (next steps last) lost = Step-IsLost fd _ (Steps-IsLost fd steps lost) last

module _ (c : Connector) (outside : c.caller ≡ idle) (alone : c.worker ≡ no_thread)
    (closed : c.socket_fd ≡ none) (fd1 fd2 : ℕ) (free1 : IsNew (made_socket fd1) c.sockets)
    (free2 : IsNew (made_socket fd2) (fd1 ∷ c.sockets)) where
  -- The second call comes before the first worker thread has made its socket.
  unfoldable called_twice : Connector
  unfolding begin_disconnect close_and_join finish_disconnect
  called_twice = close_and_join true (
      begin_disconnect true
        (finish_disconnect true (close_and_join true (begin_disconnect true c))))

  Steps-called_twice : Steps c called_twice
  unfolding called_twice begin_disconnect close_and_join close_socket finish_disconnect
  Steps-called_twice =
      let called = next here (calls_connect outside) in
      let closed1 = next called (closes true refl) in
      let joined = next closed1 (joins true refl (rw alone tt)) in
      let again = next joined (calls_connect refl) in next again (closes true refl)

  -- The first thread then makes its socket and connects, and the second one makes its own.
  unfoldable reconnected : Connector
  unfolding called_twice
  reconnected = make_socket (made_socket fd2) (
      finish_disconnect true
        (end_loop (connect_succeeded (make_socket (made_socket fd1) called_twice))))

  Steps-reconnected : Steps c reconnected
  unfolding reconnected called_twice begin_disconnect close_and_join close_socket close_open
      finish_disconnect make_socket connect_succeeded end_loop report_status
  Steps-reconnected =
      let made = next Steps-called_twice (makes_socket (made_socket fd1) refl (rw closed free1)) in
      let connected = next made (succeeds refl) in
      let ended = next connected (ends_loop refl) in
      let joined = next ended (joins true refl tt) in
      next joined (makes_socket (made_socket fd2) refl (rw closed free2))

  -- A client outside `connect` and `disconnect`, with no worker thread and no socket, that calls
  -- `connect` twice can come to a state from which on its first socket is never closed. There both
  -- calls have returned, and the second worker thread is at its `::connect` with the second socket in
  -- `socket_fd_`; the first socket is open, and stays open and is not the client's socket whatever
  -- steps follow. It happens where the first worker thread makes its socket after the second call
  -- has tested `socket_fd_`. The sockets have descriptors that are not open at the time.
  pub socket_is_lost :
      (d : Connector) × Steps c d
      × (d.caller ≡ idle)
      × (d.worker ≡ connecting)
      × (d.socket_fd ≡ some fd2)
      × ((e : Connector) → Steps d e → IsOpen fd1 e.sockets × (e.socket_fd ≢ some fd1))
  unfolding reconnected make_socket finish_disconnect end_loop connect_succeeded report_status
  socket_is_lost = (
    reconnected,
    Steps-reconnected,
    refl,
    refl,
    refl,
    λ e steps.
        let lost =
          Steps-IsLost fd1 steps
            (record { open_still = inr (inl refl); not_socket = λ h. free2.0 (cc) }) in
        (lost.open_still, lost.not_socket),
  )
