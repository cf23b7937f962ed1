-- ===== src/Redis/Books.antt =====
-- A hiredis library that keeps books over the contexts and replies it gives out and takes back, for
-- the use that server/src/cache_manager.cpp makes of it. A reply counts with all its elements, which
-- `free_reply_object` frees with it.
use qq_copy.Base.{ℕ, ◌≡◌, refl, List, [], ◌∷◌, ◌++◌, Bool, true, Option, none, some, ◌&&◌}
use qq_copy.Redis.{
  Redis, Reply, reply, Body, reply_string, reply_array, reply_integer, reply_nil, reply_status,
  reply_error, Elements, no_elements, element,
}
use qq_copy.Mysql.Ledger.{member, remove, ==-refl}

pub record Books : Type 0 where
  pub contexts : List ℕ
  pub live : List ℕ
  pub sound : Bool

-- The addresses that a reply takes up.
unfoldable mutual
  pub addresses : Reply → List ℕ
  addresses (reply p body) = p ∷ body_addresses body

  pub body_addresses : Body → List ℕ
  body_addresses (reply_string str) = []
  body_addresses (reply_array items) = element_addresses items
  body_addresses (reply_integer n) = []
  body_addresses reply_nil = []
  body_addresses reply_status = []
  body_addresses reply_error = []

  pub element_addresses : Elements → List ℕ
  element_addresses no_elements = []
  element_addresses (element r rest) = addresses r ++ element_addresses rest

abbrev pub remove_all : List ℕ → List ℕ → List ℕ
remove_all [] l = l
remove_all (a ∷ hs) l = remove_all hs (remove a l)

abbrev pub all_members : List ℕ → List ℕ → Bool
all_members [] l = true
all_members (a ∷ hs) l = member a l && all_members hs (remove a l)

abbrev pub use_context : ℕ → Books → Books
use_context h b = record b { sound = member h b.contexts && b.sound }

abbrev pub end_context : ℕ → Books → Books
end_context h b = record b {
  contexts = remove h b.contexts;
  sound = member h b.contexts && b.sound;
}

abbrev pub new_context : Option ℕ → Books → Books
new_context none b = b
new_context (some h) b = record b { contexts = h ∷ b.contexts }

abbrev pub receive_reply : Option Reply → Books → Books
receive_reply none b = b
receive_reply (some r) b = record b { live = addresses r ++ b.live }

abbrev pub give_back : Reply → Books → Books
give_back r b = record b {
  live = remove_all (addresses r) b.live;
  sound = all_members (addresses r) b.live && b.sound;
}

abbrev pub tracked : Redis → Redis
tracked R = record {
  World = R.World × Books;
  redis_connect = λ host port s.
      let (made, w) = R.redis_connect host port s.0 in (made, (w, new_context made.0 s.1));
  redis_free = λ ctx s. (R.redis_free ctx s.0, end_context ctx s.1);
  redis_command = λ ctx format args s.
      let (r, w) = R.redis_command ctx format args s.0 in
      (r, (w, receive_reply r (use_context ctx s.1)));
  free_reply_object = λ r s. (R.free_reply_object r s.0, give_back r s.1);
  redis_append_command = λ ctx format s.
      let (ok, w) = R.redis_append_command ctx format s.0 in (ok, (w, use_context ctx s.1));
  redis_get_reply = λ ctx s.
      let (got, w) = R.redis_get_reply ctx s.0 in
      (got, (w, receive_reply got.1 (use_context ctx s.1)));
}

abbrev pub good_books : List ℕ → List ℕ → Books
good_books C L = record { contexts = C; live = L; sound = true }

pub remove_all-append : (hs l : List ℕ) → remove_all hs (hs ++ l) ≡ l
remove_all-append [] l = refl
remove_all-append (a ∷ hs) l = rw (==-refl a) (remove_all-append hs l)

pub all_members-append : (hs l : List ℕ) → all_members hs (hs ++ l) ≡ true
all_members-append [] l = refl
all_members-append (a ∷ hs) l = rw (==-refl a) (all_members-append hs l)

-- A reply that was received and is given back leaves the books as they were.
pub give_back-books :
    (C L : List ℕ) (r : Reply) → give_back r (good_books C (addresses r ++ L)) ≡ good_books C L
give_back-books C L r =
    rw (remove_all-append (addresses r) L, all_members-append (addresses r) L) refl
