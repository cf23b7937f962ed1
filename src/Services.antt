-- ===== src/Services.antt =====
-- What the message handlers call beside the connections: the methods of DatabasePool
-- (server/include/qqchat/database_pool.hpp) and CacheManager (server/include/qqchat/cache_manager.hpp)
-- that they use, and SHA256 of OpenSSL. The two states are abstract; a method returns its result
-- and the new state, and `none` or `false` where the C++ method returns false.
use qq_copy.Base.{ℕ, List, Bool, Option}
use qq_copy.Base.Int.{ℤ}

pub record User : Type 0 where
  pub user_id : ℤ
  pub username : List ℕ
  pub password_hash : List ℕ
  pub avatar_url : List ℕ
  pub security_question : List ℕ
  pub security_answer : List ℕ

pub record Friend : Type 0 where
  pub user_id : ℤ
  pub friend_id : ℤ
  pub friend_name : List ℕ
  pub avatar_url : List ℕ

pub record Services : Type 1 where
  pub Db : Type 0
  pub verify_user : List ℕ → List ℕ → Db → Option User × Db
  pub get_user_by_id : ℤ → Db → Option User × Db
  pub add_friend : ℤ → ℤ → Db → Bool × Db
  pub get_friends : ℤ → Db → Option (List Friend) × Db
  pub send_message : ℤ → ℤ → List ℕ → Db → Option ℤ × Db
  pub register_user : List ℕ → List ℕ → List ℕ → List ℕ → Db → Option ℤ × Db
  pub username_exists : List ℕ → Db → Bool × Db
  pub get_security_question : List ℕ → Db → Option (List ℕ × List ℕ) × Db
  pub reset_password : List ℕ → List ℕ → Db → Bool × Db
  pub Cache : Type 0
  pub set_online : ℤ → Bool → Cache → Cache
  pub set_connection_id : ℤ → List ℕ → Cache → Cache
  pub increment_unread : ℤ → Cache → Cache
  pub digest : List ℕ → List ℕ
