-- ===== src/Examples/Cached.antt =====
-- Runs of the theorems on the cache, on a client library that answers every command with "1".
use qq_copy.Base.{ℕ, suc, ◌≡◌, refl, List, [], ◌∷◌, true, false, none, some}
use qq_copy.Base.Int.{pos, negsuc}
use qq_copy.Io.{ended, returned, refused, blocked}
use qq_copy.Redis.{Redis, Reply, reply, reply_string, reply_array, no_elements, element}
use qq_copy.Redis.Books.{tracked, good_books, addresses}
use qq_copy.Cache.{CacheManager, cache_with, open_cache, close_cache}
use qq_copy.Cache.Pipeline.{pipeline, free_all}
use qq_copy.Cache.Calls.{run_cache, call_set_online, call_is_online, call_get_unread_count}
use qq_copy.Cache.Lifetime.{Holds, Kept, run_caches, cache_uses_library_soundly}
use qq_copy.Cache.Arguments.{noted, OneVaList, methods_pass_va_list}
use qq_copy.Cache.Locked.{one_call, pipeline_blocks}
use qq_copy.Cache.DoubleFree.{free_all_frees_twice}
use qq_copy.Cache.Keys.{user_keys_differ}

abbrev one_reply : Reply
one_reply = reply 4 (reply_string (b'1' ∷ []))

-- The world counts the commands.
abbrev answering : Redis
answering = record {
  World = ℕ;
  redis_connect = λ host port w. ((some 1, true), w);
  redis_free = λ ctx w. w;
  redis_command = λ ctx format args w. (some one_reply, suc w);
  free_reply_object = λ r w. w;
  redis_append_command = λ ctx format w. (true, w);
  redis_get_reply = λ ctx w. ((true, some one_reply), w);
}

abbrev used_cache : CacheManager (tracked answering)
used_cache =
    run_caches (call_set_online (pos 7) true ∷ [])
      (open_cache [] (pos 6379) (pos 0) (0, good_books [] []))

cache_uses_library_soundly_example :
    (L : List ℕ) × Holds answering L used_cache
    × Kept answering true L (run_cache (call_get_unread_count (pos 7)) used_cache)
    × ((close_cache used_cache).world.1 ≡ good_books [] L)
cache_uses_library_soundly_example =
    cache_uses_library_soundly answering [] (pos 6379) (pos 0) 0 (call_set_online (pos 7) true ∷ [])
      (call_get_unread_count (pos 7))

methods_pass_va_list_example :
    OneVaList []
      (run_cache
        (call_is_online (pos 7))
        (cache_with (noted answering) (some 1) false (0, []))).1.world.1
methods_pass_va_list_example = methods_pass_va_list answering (call_is_online (pos 7)) 1 0 []

pipeline_blocks_example :
    (run_cache (call_is_online (pos 7)) (cache_with answering none false 0)
      ≡ (ended refused, cache_with answering none false 0))
    × (pipeline (λ c. (ended (returned tt), c)) (cache_with answering none false 0)
        ≡ (ended refused, cache_with answering none false 0))
    × ((pipeline
          (one_call answering (call_is_online (pos 7)))
          (cache_with answering (some 1) false 0)).0
        ≡ blocked)
    × ((pipeline
          (one_call answering (call_is_online (pos 7)))
          (cache_with answering (some 1) false 0)).1.locked
        ≡ true)
pipeline_blocks_example =
    pipeline_blocks answering (call_is_online (pos 7)) 0 (λ c. (ended (returned tt), c)) 1 refl

abbrev online_name : List ℕ
online_name = b'o' ∷ []

user_keys_differ_example : (negsuc 4 ≡ negsuc 4) × (online_name ≡ online_name)
user_keys_differ_example = user_keys_differ (negsuc 4) (negsuc 4) online_name online_name refl

free_all_frees_twice_example :
    (free_all (tracked answering) (some (reply 9 (reply_array (element one_reply no_elements)))) (
      0,
      good_books (1 ∷ []) (addresses (reply 9 (reply_array (element one_reply no_elements)))),
    )).1.1.sound
    ≡ false
free_all_frees_twice_example = free_all_frees_twice answering 9 one_reply no_elements (1 ∷ []) 0
