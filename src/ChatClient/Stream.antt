-- ===== src/ChatClient/Stream.antt =====
-- The stream as a whole: what the client finds in what the server has written.
use qq_copy.Base.{
  ℕ, ◌%◌, ◌^◌, map, ◌≡◌, refl, ap, ◌∙◌, List, [], ◌∷◌, ◌++◌, length, All, arith, append-nil,
}
use qq_copy.Outcome.{ok}
use qq_copy.Wire.{IsBytes, read_uint32}
use qq_copy.Wire.RoundTrip.{read_uint32-write_uint32}
use qq_copy.Protocol.{Packet, encode}
use qq_copy.Protocol.Packets.{IsPacket, length-encode, length-At}
use qq_copy.ChatClient.{receive, receive_all}
use qq_copy.ChatClient.Reassembly.{
  concat, IsFrame, Incomplete, receive-frames, read_uint32-prefix, next_packet-short, framed,
  concat-IsBytes, receive_all-receive,
}

-- However the bytes of a stream are cut into the pieces that `recv` brings, the client finds the
-- same packets in them, and is left with the same buffer, as if they came at once; and it finds
-- some, without a read outside the buffer.
pub chunking_is_irrelevant :
    (chunks : List (List ℕ))
    → All IsBytes chunks
    → (receive_all [] chunks ≡ receive [] (concat chunks))
      × ((frames : List (List ℕ)) × (left : List ℕ) × (receive_all [] chunks ≡ ok (frames, left))
          × (concat chunks ≡ concat frames ++ left))
chunking_is_irrelevant chunks h =
    let bytes = concat-IsBytes chunks h in
    let (frames, left, fs, done, _, e) =
      framed (length (concat chunks)) (concat chunks) bytes (omega arith) in
    let same = receive_all-receive [] chunks tt h (next_packet-short [] refl) in
    (same, (frames, left, same ∙ receive-frames [] (concat chunks) frames left fs done e, e))

-- The packets that the server has written.
abbrev pub encoded : List Packet → List (List ℕ)
encoded = map encode

read_uint32-encode : (p : Packet) → IsPacket p → read_uint32 (encode p) 3 ≡ ok (length p.payload)
read_uint32-encode p fits =
    read_uint32-write_uint32 (encode p) 3 (length p.payload % 2 ^ 32) p.payload (omega arith)
      (length-At p)
    ∙ ap ok (omega (arith, fits.payload_fits))

encode-IsFrame : (p : Packet) → IsPacket p → IsFrame (encode p)
encode-IsFrame p fits = record {
  len = length p.payload;
  size = length-encode p;
  field = λ rest.
      read_uint32-prefix (encode p) rest [] (omega (arith, length-encode p))
      ∙ ap (λ b. read_uint32 b 3) (append-nil (encode p))
      ∙ read_uint32-encode p fits;
}

encoded-IsFrame : (packets : List Packet) → All IsPacket packets → All IsFrame (encoded packets)
encoded-IsFrame [] h = tt
encoded-IsFrame (p ∷ packets) h = (encode-IsFrame p h.0, encoded-IsFrame packets h.1)

-- However a stream of well-formed packets that the server has written is cut, with bytes behind them
-- that hold no whole packet, or with nothing: the client cuts out exactly these packets, in their
-- order, and keeps what is behind them.
pub server_packets_are_received :
    (chunks : List (List ℕ)) (packets : List Packet) (left : List ℕ)
    → All IsBytes chunks
    → All IsPacket packets
    → Incomplete left
    → concat chunks ≡ concat (encoded packets) ++ left
    → receive_all [] chunks ≡ ok (encoded packets, left)
server_packets_are_received chunks packets left h hp done e =
    (chunking_is_irrelevant chunks h).0
    ∙ receive-frames [] (concat chunks) (encoded packets) left (encoded-IsFrame packets hp) done e
