-- ===== src/Cache/DoubleFree.antt =====
-- `free_all` of the template `pipeline` (server/include/qqchat/cache_manager.hpp), which frees the
-- elements of a reply and then the reply with its elements.
use qq_copy.Base.{
  ℕ, suc, ◌+◌, ◌≡◌, ◌≢◌, refl, ap, ◌∙◌, List, [], ◌∷◌, length, length-append, Bool, true, false,
  some, ◌&&◌, Bool-cases, inl, inr, arith,
}
use qq_copy.Io.{Exit, returned, refused, thrown, bad_read, endless, continue, tell}
use qq_copy.Redis.{Redis, Reply, reply, reply_array, Elements, no_elements, element}
use qq_copy.Redis.Books.{
  Books, tracked, addresses, body_addresses, element_addresses, remove_all, all_members, give_back,
  good_books,
}
use qq_copy.Mysql.Ledger.{member, remove}
use qq_copy.Cache.Pipeline.{free_elements, free_body, free_all}

both : (a b : Bool) → (a && b) ≡ true → (a ≡ true) × (b ≡ true)
both true b e = (refl, e)
both false b e = absurd (cc)

length-remove : (h : ℕ) (l : List ℕ) → member h l ≡ true → suc (length (remove h l)) ≡ length l
length-remove h [] m = absurd (cc)
length-remove h (x ∷ l) m = ground (arith, length-remove h l)

length-remove_all :
    (hs l : List ℕ) → all_members hs l ≡ true → length hs + length (remove_all hs l) ≡ length l
length-remove_all [] l m = omega arith
length-remove_all (h ∷ hs) l m =
    let (here, there) = both (member h l) (all_members hs (remove h l)) m in
    let one = length-remove h l here in
    let more = length-remove_all hs (remove h l) there in omega arith

-- Where the books stay good, what was live before a reply is given back are the addresses of the
-- reply and what is live after.
give_back-length :
    (r : Reply) (b : Books)
    → (give_back r b).sound ≡ true
    → (b.sound ≡ true) × (length (addresses r) + length (give_back r b).live ≡ length b.live)
give_back-length r b e =
    let (m, s) = both (all_members (addresses r) b.live) b.sound e in
    (s, length-remove_all (addresses r) b.live m)

module _ (R : Redis) where
  free_elements-length :
      (items : Elements) (w : R.World) (b : Books)
      → (free_elements (tracked R) items (w, b)).1.1.sound ≡ true
      → (b.sound ≡ true)
        × (length (element_addresses items)
              + length (free_elements (tracked R) items (w, b)).1.1.live
            ≡ length b.live)
  unfolding free_elements element_addresses
  free_elements-length no_elements w b e = (e, omega arith)
  free_elements-length (element r rest) w b e =
      let (s, tail) = free_elements-length rest (R.free_reply_object r w) (give_back r b) e in
      let (s0, front) = give_back-length r b s in
      let split = length-append (addresses r) (element_addresses rest) in (s0, omega arith)

  free_elements-returned :
      (items : Elements) (s : R.World × Books) → (free_elements (tracked R) items s).0 ≡ returned tt
  unfolding free_elements
  free_elements-returned no_elements s = refl
  free_elements-returned (element r rest) s = free_elements-returned rest _

  -- After an action that returns.
  continue-tell :
      (m : Exit (Unit {0}) × (R.World × Books)) (f : R.World × Books → R.World × Books)
      → m.0 ≡ returned tt
      → (continue m (λ _. tell f)).1 ≡ f m.1
  continue-tell (returned _, s) f e = refl
  continue-tell (refused, s) f e = absurd (cc)
  continue-tell (thrown, s) f e = absurd (cc)
  continue-tell (bad_read, s) f e = absurd (cc)
  continue-tell (endless, s) f e = absurd (cc)

  given_back_again :
      (p : ℕ) (first : Reply) (rest : Elements) (C : List ℕ) (w : R.World)
      → let r = reply p (reply_array (element first rest)) in
        let freed =
          free_elements (tracked R) (element first rest) (w, good_books C (addresses r)) in
        (give_back r freed.1.1).sound ≢ true
  unfolding addresses body_addresses element_addresses
  given_back_again p (reply q body) rest C w e =
      let items = element (reply q body) rest in
      let r = reply p (reply_array items) in
      let start = good_books C (addresses r) in
      let freed = free_elements (tracked R) items (w, start) in
      let (s, last) = give_back-length r freed.1.1 e in
      let (_, front) = free_elements-length items w start s in omega arith

  -- Where an array with an element is all that is live, `free_all` frees some address twice.
  pub free_all_frees_twice :
      (p : ℕ) (first : Reply) (rest : Elements) (C : List ℕ) (w : R.World)
      → let r = reply p (reply_array (element first rest)) in
        (free_all (tracked R) (some r) (w, good_books C (addresses r))).1.1.sound ≡ false
  unfolding free_all free_body
  free_all_frees_twice p first rest C w =
      let items = element first rest in
      let r = reply p (reply_array items) in
      let s0 : R.World × Books = (w, good_books C (addresses r)) in
      let freed = free_elements (tracked R) items s0 in
      ap (λ t. t.1.sound)
        (continue-tell freed ((tracked R).free_reply_object r) (free_elements-returned items s0))
      ∙ elim (Bool-cases (give_back r freed.1.1).sound) [
        | inl good ↦ absurd (given_back_again p first rest C w good)
        | inr bad ↦ bad
      ]
