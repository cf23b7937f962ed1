-- ===== src/ChatClient/Leftover.antt =====
-- A client that connects again with bytes of an incomplete packet in its buffer
-- (android/app/src/main/cpp/chat_client.cpp).
use qq_copy.Base.{ℕ, ◌<◌, ◌≡◌, ◌⊎◌, List, [], ◌∷◌, ◌++◌, take, true}
use qq_copy.ChatClient.Worker.{
  Connector, reading, idle, close_open, begin_disconnect, close_and_join, finish_disconnect,
  made_socket, make_socket, connect_succeeded, end_loop, IsNew,
}

-- The first packet is made of the old bytes and of the beginning of the new stream; or there is no
-- packet, and the new stream is in the buffer behind the old bytes.
abbrev pub ContinuesBuffer : (left stream : List ℕ) → List (List ℕ) → List ℕ → Type 0
ContinuesBuffer left stream packets last =
    ((packets ≡ []) × (last ≡ left ++ stream))
    ⊎ ((n : ℕ) × (more : List (List ℕ)) × (0 < n) × (packets ≡ (left ++ take n stream) ∷ more))

module _ (c : Connector) (outside : c.caller ≡ idle) (reads : c.worker ≡ reading) (fd : ℕ)
    (free : IsNew (made_socket fd) (close_open c.socket_fd c.sockets)) where
  -- `connect` is called, closes the socket, and waits for the worker thread; the next one connects.
  unfoldable connected_again : Connector
  connected_again = connect_succeeded (
      make_socket (made_socket fd)
        (finish_disconnect true (end_loop (close_and_join true (begin_disconnect true c)))))
