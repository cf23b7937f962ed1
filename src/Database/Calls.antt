-- ===== src/Database/Calls.antt =====
-- The methods of DatabasePool (server/include/qqchat/database_pool.hpp) as one kind of call, and the
-- states of a pool in which a call may find it.
use qq_copy.Base.{ℕ, List}
use qq_copy.Base.Int.{ℤ}
use qq_copy.Services.{User, Friend}
use qq_copy.Io.{Result, ended, returned, refused, thrown, bad_read, blocked, endless}
use qq_copy.Mysql.{Mysql}
use qq_copy.Database.{DatabasePool, open_pool}
use qq_copy.Database.Users.{
  verify_user, register_user, username_exists, get_security_question, reset_password,
  update_password, get_user_by_id, get_user_by_name, add_user,
}
use qq_copy.Database.Friends.{get_friends, add_friend, delete_friend}
use qq_copy.Database.Messages.{Message, send_message, get_messages}

-- A method with its arguments. The number of a method with a loop bounds its rounds.
pub data DatabaseCall : Type 0 where
  call_verify_user : (List ℕ → List ℕ) → List ℕ → List ℕ → User → DatabaseCall
  call_register_user : List ℕ → List ℕ → List ℕ → List ℕ → DatabaseCall
  call_username_exists : List ℕ → DatabaseCall
  call_get_security_question : List ℕ → DatabaseCall
  call_reset_password : List ℕ → List ℕ → DatabaseCall
  call_update_password : ℤ → List ℕ → DatabaseCall
  call_get_user_by_id : ℤ → User → DatabaseCall
  call_get_user_by_name : List ℕ → User → DatabaseCall
  call_add_user : List ℕ → List ℕ → DatabaseCall
  call_get_friends : ℕ → ℤ → List Friend → DatabaseCall
  call_add_friend : ℤ → ℤ → DatabaseCall
  call_delete_friend : ℤ → ℤ → DatabaseCall
  call_send_message : ℤ → ℤ → List ℕ → DatabaseCall
  call_get_messages : ℕ → ℤ → ℤ → List Message → ℤ → DatabaseCall

-- What the method writes where it returns true.
abbrev pub Answer : DatabaseCall → Type 0
Answer (call_verify_user digest username password user) = User
Answer (call_register_user username hash question answer_hash) = ℤ
Answer (call_username_exists username) = Unit {0}
Answer (call_get_security_question username) = List ℕ × List ℕ
Answer (call_reset_password username hash) = Unit {0}
Answer (call_update_password user_id hash) = Unit {0}
Answer (call_get_user_by_id user_id user) = User
Answer (call_get_user_by_name username user) = User
Answer (call_add_user username hash) = Unit {0}
Answer (call_get_friends fuel user_id friends) = List Friend
Answer (call_add_friend user_id friend_id) = Unit {0}
Answer (call_delete_friend user_id friend_id) = Unit {0}
Answer (call_send_message from_id to_id content) = ℤ
Answer (call_get_messages fuel user_id friend_id messages limit) = List Message

module _ {M : Mysql} where
  unfoldable pub run_call : (c : DatabaseCall) → DatabasePool M → Result (Answer c) × DatabasePool M
  run_call (call_verify_user digest username password user) =
      verify_user digest username password user
  run_call (call_register_user username hash question answer_hash) =
      register_user username hash question answer_hash
  run_call (call_username_exists username) = username_exists username
  run_call (call_get_security_question username) = get_security_question username
  run_call (call_reset_password username hash) = reset_password username hash
  run_call (call_update_password user_id hash) = update_password user_id hash
  run_call (call_get_user_by_id user_id user) = get_user_by_id user_id user
  run_call (call_get_user_by_name username user) = get_user_by_name username user
  run_call (call_add_user username hash) = add_user username hash
  run_call (call_get_friends fuel user_id friends) = get_friends fuel user_id friends
  run_call (call_add_friend user_id friend_id) = add_friend user_id friend_id
  run_call (call_delete_friend user_id friend_id) = delete_friend user_id friend_id
  run_call (call_send_message from_id to_id content) = send_message from_id to_id content
  run_call (call_get_messages fuel user_id friend_id messages limit) =
      get_messages fuel user_id friend_id messages limit

-- The method has returned to its caller.
abbrev pub IsReturn : {A : Type 0} → Result A → Type 0
IsReturn (ended (returned a)) = Unit {0}
IsReturn (ended refused) = Unit {0}
IsReturn (ended thrown) = ⊥
IsReturn (ended bad_read) = ⊥
IsReturn blocked = ⊥
IsReturn (ended endless) = ⊥

-- The states of a pool that is made for this size with the library in the state `w`.
pub data Reachable (M : Mysql) (pool_size : ℤ) (w : M.World) : DatabasePool M → Type 0 where
  opened :
      (host : List ℕ) (port : ℤ) (db user pass : List ℕ)
      → Reachable M pool_size w (open_pool host port db user pass pool_size w)
  called :
      (p : DatabasePool M) (c : DatabaseCall)
      → Reachable M pool_size w p
      → IsReturn (run_call c p).0
      → Reachable M pool_size w (run_call c p).1
