-- ===== src/Cache/Calls.antt =====
-- The methods of CacheManager (server/include/qqchat/cache_manager.hpp) as one kind of call.
use qq_copy.Base.{ℕ, List, Bool}
use qq_copy.Base.Int.{ℤ}
use qq_copy.Redis.{Redis}
use qq_copy.Cache.{CacheMethod}
use qq_copy.Cache.Presence.{
  set_online, is_online, get_connection_id, set_connection_id, remove_connection_id, set_ttl,
  delete_key, exists_key,
}
use qq_copy.Cache.Counters.{
  add_friend, remove_friend, get_friends, clear_friends, increment_unread, decrement_unread,
  get_unread_count, clear_unread,
}

-- A method with its arguments.
pub data CacheCall : Type 0 where
  call_set_online : ℤ → Bool → CacheCall
  call_is_online : ℤ → CacheCall
  call_get_connection_id : ℤ → CacheCall
  call_set_connection_id : ℤ → List ℕ → CacheCall
  call_remove_connection_id : ℤ → CacheCall
  call_set_ttl : List ℕ → ℤ → CacheCall
  call_delete_key : List ℕ → CacheCall
  call_exists_key : List ℕ → CacheCall
  call_add_friend : ℤ → ℤ → CacheCall
  call_remove_friend : ℤ → ℤ → CacheCall
  call_get_friends : ℤ → List ℤ → CacheCall
  call_clear_friends : ℤ → CacheCall
  call_increment_unread : ℤ → CacheCall
  call_decrement_unread : ℤ → CacheCall
  call_get_unread_count : ℤ → CacheCall
  call_clear_unread : ℤ → CacheCall

-- What the method writes where it returns true.
abbrev pub CacheAnswer : CacheCall → Type 0
CacheAnswer (call_set_online user_id online) = Unit {0}
CacheAnswer (call_is_online user_id) = Unit {0}
CacheAnswer (call_get_connection_id user_id) = List ℕ
CacheAnswer (call_set_connection_id user_id conn_id) = Unit {0}
CacheAnswer (call_remove_connection_id user_id) = Unit {0}
CacheAnswer (call_set_ttl key seconds) = Unit {0}
CacheAnswer (call_delete_key key) = Unit {0}
CacheAnswer (call_exists_key key) = Unit {0}
CacheAnswer (call_add_friend user_id friend_id) = Unit {0}
CacheAnswer (call_remove_friend user_id friend_id) = Unit {0}
CacheAnswer (call_get_friends user_id friends) = List ℤ
CacheAnswer (call_clear_friends user_id) = Unit {0}
CacheAnswer (call_increment_unread user_id) = Unit {0}
CacheAnswer (call_decrement_unread user_id) = Unit {0}
CacheAnswer (call_get_unread_count user_id) = ℤ
CacheAnswer (call_clear_unread user_id) = Unit {0}

unfoldable pub run_cache : {R : Redis} (c : CacheCall) → CacheMethod R (CacheAnswer c)
run_cache (call_set_online user_id online) = set_online user_id online
run_cache (call_is_online user_id) = is_online user_id
run_cache (call_get_connection_id user_id) = get_connection_id user_id
run_cache (call_set_connection_id user_id conn_id) = set_connection_id user_id conn_id
run_cache (call_remove_connection_id user_id) = remove_connection_id user_id
run_cache (call_set_ttl key seconds) = set_ttl key seconds
run_cache (call_delete_key key) = delete_key key
run_cache (call_exists_key key) = exists_key key
run_cache (call_add_friend user_id friend_id) = add_friend user_id friend_id
run_cache (call_remove_friend user_id friend_id) = remove_friend user_id friend_id
run_cache (call_get_friends user_id friends) = get_friends user_id friends
run_cache (call_clear_friends user_id) = clear_friends user_id
run_cache (call_increment_unread user_id) = increment_unread user_id
run_cache (call_decrement_unread user_id) = decrement_unread user_id
run_cache (call_get_unread_count user_id) = get_unread_count user_id
run_cache (call_clear_unread user_id) = clear_unread user_id
