-- ===== src/ChatClient.antt =====
-- android/app/src/main/cpp/chat_client.cpp: how the client cuts the stream of the server into
-- packets, and what it does with each. The lock of the callbacks is held for one operation at a
-- time; the socket is a list of the buffers that were handed to `send`.
pub mod Reassembly
pub mod Answers
pub mod Worker
pub mod Status
pub mod Leak
pub mod Leftover
pub mod Session
pub mod Stream
use qq_copy.Base.{
  ℕ, zero, suc, ◌+◌, List, [], ◌∷◌, ◌++◌, length, take, drop, map, Bool, Option, none, some, leb,
  if◌then◌else◌,
}
use qq_copy.Base.Int.{ℤ}
use qq_copy.Outcome.{Outcome, ok, malformed, fault, ◌>>=◌}
use qq_copy.Wire.{read_uint32}
use qq_copy.Protocol.{CommandCode, header_size}
use qq_copy.Protocol.{
  login_resp, message_notify, friend_list_resp, register_resp, security_question_resp,
  reset_password_resp, version_check_resp,
}
use qq_copy.ClientCodec.{
  decode, decode_login_response, decode_message_notify, decode_friend_list_response,
  decode_register_response, decode_security_question_response, decode_reset_password_response,
  decode_version_check_response,
}

-- A call of a callback, with its arguments.
pub data Call : Type 0 where
  login_call : (error_code : ℕ) (user_id : ℤ) (username : List ℕ) → Call
  message_call : (from_id : ℤ) (content : List ℕ) (timestamp : ℤ) → Call
  friend_list_call : (error_code : ℕ) (friends : List (ℤ × List ℕ)) → Call
  register_call : (error_code : ℕ) (user_id : ℤ) → Call
  security_question_call : (error_code : ℕ) (question : List ℕ) → Call
  reset_password_call : (error_code : ℕ) → Call
  version_check_call :
      (error_code : ℕ) (server_version : ℤ) (update_url update_desc : List ℕ) → Call

-- Which of the callbacks are set.
pub record Callbacks : Type 0 where
  pub login_callback : Bool
  pub message_callback : Bool
  pub friend_list_callback : Bool
  pub register_callback : Bool
  pub security_question_callback : Bool
  pub reset_password_callback : Bool
  pub version_check_callback : Bool

-- `if (decode(...)) { if (callback_) callback_(...); }`
abbrev pub answer : {A : Type 0} → Outcome A → Bool → (A → Call) → Outcome (List Call)
answer (ok resp) set call = ok (if set then call resp ∷ [] else [])
answer malformed set call = ok []
answer fault set call = fault

unfoldable pub handle_command : Callbacks → CommandCode → List ℕ → Outcome (List Call)
handle_command set login_resp bytes =
    answer (decode_login_response bytes) set.login_callback
      (λ resp. login_call resp.error_code resp.user_id resp.username)
handle_command set message_notify bytes =
    answer (decode_message_notify bytes) set.message_callback
      (λ notify. message_call notify.from_id notify.content notify.timestamp)
handle_command set friend_list_resp bytes =
    answer (decode_friend_list_response bytes) set.friend_list_callback
      (λ friends. friend_list_call 0 (map (λ f. (f.friend_id, f.friend_name)) friends))
handle_command set register_resp bytes =
    answer (decode_register_response bytes) set.register_callback
      (λ resp. register_call resp.error_code resp.user_id)
handle_command set security_question_resp bytes =
    answer (decode_security_question_response bytes) set.security_question_callback
      (λ resp. security_question_call resp.error_code resp.question)
handle_command set reset_password_resp bytes =
    answer (decode_reset_password_response bytes) set.reset_password_callback
      (λ resp. reset_password_call resp.error_code)
handle_command set version_check_resp bytes =
    answer (decode_version_check_response bytes) set.version_check_callback (λ resp.
      version_check_call resp.error_code resp.server_version resp.update_url resp.update_desc)
handle_command set _ bytes = ok []

-- ChatClient::handle_packet: the calls that a packet leads to, none if it does not decode.
unfoldable pub handle_packet : Callbacks → List ℕ → Outcome (List Call)
unfolding handle_command
handle_packet set packet = elim (decode packet) [
  | ok (command, bytes) ↦ handle_command set command bytes
  | malformed ↦ ok []
  | fault ↦ fault
]

-- The first packet in the buffer and what is behind it, if the packet is there as a whole.
unfoldable pub next_packet : List ℕ → Outcome (Option (List ℕ × List ℕ))
next_packet buffer =
    if leb header_size (length buffer)
    then (do
      len ← read_uint32 buffer 3
      ok (
          if leb (header_size + len) (length buffer)
          then some (take (header_size + len) buffer, drop (header_size + len) buffer)
          else none))
    else ok none

-- The inner loop of read_loop: the packets that are cut off the front, and the rest. A round takes
-- seven bytes at least, and the fuel is the number of rounds allowed.
unfoldable pub cut_packets : ℕ → List ℕ → Outcome (List (List ℕ) × List ℕ)
unfolding next_packet
cut_packets zero buffer = ok ([], buffer)
cut_packets (suc fuel) buffer = elim (next_packet buffer) [
  | ok none ↦ ok ([], buffer)
  | ok (some (packet, rest)) ↦ do
    (packets, left) ← cut_packets fuel rest
    ok (packet ∷ packets, left)
  | malformed ↦ malformed
  | fault ↦ fault
]

-- A round of the outer loop: what `recv` has brought is appended to read_buffer_, and all the
-- packets that are there are cut off.
unfoldable pub receive : List ℕ → List ℕ → Outcome (List (List ℕ) × List ℕ)
unfolding cut_packets
receive read_buffer bytes = cut_packets (length (read_buffer ++ bytes)) (read_buffer ++ bytes)

-- The outer loop over what the calls of `recv` bring, until the connection ends: the packets, and
-- the buffer that is left.
unfoldable pub receive_all : List ℕ → List (List ℕ) → Outcome (List (List ℕ) × List ℕ)
unfolding receive
receive_all read_buffer [] = ok ([], read_buffer)
receive_all read_buffer (bytes ∷ chunks) = do
  (packets, left) ← receive read_buffer bytes
  (more, last) ← receive_all left chunks
  ok (packets ++ more, last)

-- The calls of the packets, in order.
unfoldable pub handle_packets : Callbacks → List (List ℕ) → Outcome (List Call)
handle_packets set [] = ok []
handle_packets set (packet ∷ packets) = do
  calls ← handle_packet set packet
  more ← handle_packets set packets
  ok (calls ++ more)

-- read_loop: a packet is handled when it is cut off, which does not touch the buffer.
unfoldable pub read_loop : Callbacks → List ℕ → List (List ℕ) → Outcome (List Call)
unfolding receive_all handle_packets
read_loop set read_buffer chunks = do
  (packets, left) ← receive_all read_buffer chunks
  handle_packets set packets
