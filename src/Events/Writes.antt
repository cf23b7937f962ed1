-- ===== src/Events/Writes.antt =====
-- The write queue of a connection (Connection::send and do_write, server/src/connection_manager.cpp):
-- the buffer being written is the first of the queue, and the buffers go out in the order in which
-- they were sent.
use qq_copy.Base.{
  ℕ, ◌≡◌, refl, sym, ap, ◌∙◌, List, [], ◌∷◌, ◌++◌, some, some-eq, append_assoc, nat_eq, append-nil,
  none-ne-some,
}
use qq_copy.Server.{Connection, do_write, append_write, next_write, finish_write}

-- What was sent on a connection and has been posted: the buffers that were written and those that
-- wait, in this order.
abbrev pub sent_order : Connection → List (List ℕ)
sent_order conn = conn.socket_out ++ conn.write_buffer

-- The buffer in flight is the first that waits.
abbrev pub WritesFront : Connection → Type 0
WritesFront conn =
    (bytes : List ℕ)
    → conn.in_flight ≡ some bytes
    → (rest : List (List ℕ)) × (conn.write_buffer ≡ bytes ∷ rest)

append_write-order :
    (bytes : List ℕ) (conn : Connection) (queue : List (List ℕ))
    → conn.write_buffer ≡ queue
    → WritesFront conn
    → WritesFront (append_write bytes conn)
      × (sent_order (append_write bytes conn) ≡ sent_order conn ++ bytes ∷ [])
unfolding append_write do_write
append_write-order bytes conn [] e front =
    rw (e, append_write)
      (
        (λ b f. ([], ap (λ x. x ∷ []) (some-eq f))),
        ap (λ q. q ++ bytes ∷ []) (sym (append-nil conn.socket_out)),
      )
append_write-order bytes conn (b ∷ queue) e front =
    rw (e, append_write)
      (
        (λ c f. let (rest, w) = front c f in (rest ++ bytes ∷ [], ap (λ q. q ++ bytes ∷ []) w)),
        ap (λ q. conn.socket_out ++ (q ++ bytes ∷ [])) e
            ∙ sym (append_assoc conn.socket_out (b ∷ queue) (bytes ∷ [])),
      )

finish_write-order :
    (bytes : List ℕ) (conn : Connection) (rest : List (List ℕ))
    → conn.write_buffer ≡ bytes ∷ rest
    → WritesFront (finish_write bytes conn)
      × (sent_order (finish_write bytes conn) ≡ sent_order conn)
      × ((finish_write bytes conn).socket_out ≡ conn.socket_out ++ bytes ∷ [])
unfolding finish_write do_write next_write
finish_write-order bytes conn [] e =
    rw (e, finish_write)
      ((λ b f. absurd (none-ne-some f)), append-nil (conn.socket_out ++ bytes ∷ []), refl)
finish_write-order bytes conn (b ∷ rest) e =
    rw (e, finish_write)
      (
        (λ c f. (rest, ap (λ x. x ∷ rest) (some-eq f))),
        append_assoc conn.socket_out (bytes ∷ []) (b ∷ rest),
        refl,
      )

-- Appending a buffer and completing a write, in any state where the buffer in flight is the first
-- that waits: this stays so, a send adds its buffer behind all others, and a completed write moves
-- its own buffer to the socket, so that nothing is lost, written twice or overtaken.
pub write_queue_keeps_order :
    (conn : Connection)
    → WritesFront conn
    → ((bytes : List ℕ)
        → WritesFront (append_write bytes conn)
          × (sent_order (append_write bytes conn) ≡ sent_order conn ++ bytes ∷ []))
      × ((bytes : List ℕ)
          → conn.in_flight ≡ some bytes
          → WritesFront (finish_write bytes conn)
            × (sent_order (finish_write bytes conn) ≡ sent_order conn)
            × ((finish_write bytes conn).socket_out ≡ conn.socket_out ++ bytes ∷ []))
write_queue_keeps_order conn front = (
  (λ bytes. append_write-order bytes conn conn.write_buffer refl front),
  λ bytes e. finish_write-order bytes conn (front bytes e).0 (front bytes e).1,
)
