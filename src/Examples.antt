-- ===== src/Examples.antt =====
-- Tests: runs of the theorems at concrete inputs. The codecs are run in Codec, the server in
-- Running, client and server together in Talking and Delivered, the threads of the client in
-- Connected, the configuration in Configured, the database pool in Stored, and the cache in Cached;
-- here stand the bytes and the state that they use.
mod Codec
mod Configured
mod Running
mod Talking
mod Delivered
mod Stored
mod Cached
mod Connected
use qq_copy.Base.{
  ℕ, ◌≡◌, refl, suc, List, [], ◌∷◌, Bool, true, false, none, some, ltb, ltb→lt, ◌&&◌, if◌then◌else◌,
  text_beq,
}
use qq_copy.Base.Int.{pos}
use qq_copy.Wire.{IsBytes}
use qq_copy.Protocol.{Packet, login_req, friend_list_req}
use qq_copy.Services.{Services, User}
use qq_copy.Server.{Server, Connection, reading_header}

abbrev pub are_bytes : List ℕ → Bool
are_bytes [] = true
are_bytes (x ∷ xs) = ltb x 256 && are_bytes xs

and-true : (a b : Bool) → (a && b) ≡ true → (a ≡ true) × (b ≡ true)
and-true true b e = (refl, e)
and-true false b e = cc

pub are_bytes-IsBytes : (xs : List ℕ) → are_bytes xs ≡ true → IsBytes xs
are_bytes-IsBytes [] e = tt
are_bytes-IsBytes (x ∷ xs) e =
    let (small, rest) = and-true (ltb x 256) (are_bytes xs) e in
    (ltb→lt x 256 small, are_bytes-IsBytes xs rest)

-- "anna" and "pw".
abbrev pub anna : List ℕ
anna = b'a' ∷ b'n' ∷ b'n' ∷ b'a' ∷ []

abbrev pub pw : List ℕ
pw = b'p' ∷ b'w' ∷ []

abbrev pub login_payload : List ℕ
login_payload = 0 ∷ 4 ∷ b'a' ∷ b'n' ∷ b'n' ∷ b'a' ∷ 0 ∷ 2 ∷ b'p' ∷ b'w' ∷ []

abbrev pub login_packet : Packet
login_packet = record { version = 1; command = login_req; payload = login_payload }

abbrev pub friend_list_packet : Packet
friend_list_packet = record { version = 1; command = friend_list_req; payload = [] }

abbrev pub user_anna : User
user_anna = record {
  user_id = pos 7;
  username = anna;
  password_hash = [];
  avatar_url = [];
  security_question = [];
  security_answer = [];
}

-- A database that counts its messages and knows one user, whose security question is "pw", and a
-- cache that counts unread messages.
abbrev pub demo : Services
demo = record {
  Db = ℕ;
  verify_user = λ username password db. (
    if text_beq username anna
        then some user_anna
        else if text_beq username pw
        then some (record user_anna { user_id = pos 9; username = pw })
        else none,
    db,
  );
  get_user_by_id = λ user_id db. (some user_anna, db);
  add_friend = λ user_id friend_id db. (true, db);
  get_friends = λ user_id db. (some [], db);
  send_message = λ from_id to_id content db. (some (pos db), suc db);
  register_user = λ username password question answer db. (some (pos 9), db);
  username_exists = λ username db. (text_beq username anna, db);
  get_security_question = λ username db. (some (pw, []), db);
  reset_password = λ username password db. (true, db);
  Cache = ℕ;
  set_online = λ user_id online cache. cache;
  set_connection_id = λ user_id id cache. cache;
  increment_unread = λ user_id cache. suc cache;
  digest = λ text. 171 ∷ [];
}

abbrev pub fresh_connection : Connection
fresh_connection = record {
  conn_id = b'x' ∷ [];
  user_id = pos 0;
  header_buffer = [];
  reading = reading_header;
  write_buffer = [];
  in_flight = none;
  socket_out = [];
}

abbrev pub receiving_connection : Connection
receiving_connection = record fresh_connection { conn_id = b'y' ∷ []; user_id = pos 8 }

-- Connection 1 without a login, and connection 2 of the user 8.
abbrev pub guest_server : Server demo
guest_server = record {
  objects = (1, fresh_connection) ∷ (2, receiving_connection) ∷ [];
  connections = (b'x' ∷ [], 1) ∷ (b'y' ∷ [], 2) ∷ [];
  user_to_conn = (pos 8, b'y' ∷ []) ∷ [];
  posted = [];
  db = 3;
  cache = 0;
}

-- The same with the user 7 on connection 1.
abbrev pub anna_server : Server demo
anna_server = record guest_server {
  objects = (1, record fresh_connection { user_id = pos 7 }) ∷ (2, receiving_connection) ∷ [];
  user_to_conn = (pos 7, b'x' ∷ []) ∷ (pos 8, b'y' ∷ []) ∷ [];
}
