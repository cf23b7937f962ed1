-- ===== src/Cache/Replies.antt =====
-- Every reply is freed once (server/src/cache_manager.cpp).
use qq_copy.Base.{
  ℕ, ◌≡◌, refl, ap, ◌∙◌, List, [], ◌∷◌, ◌++◌, Bool, true, false, Option, none, some, if◌then◌else◌,
}
use qq_copy.Base.Int.{ℤ}
use qq_copy.Config.{stoi}
use qq_copy.Io.{
  Io, Exit, returned, refused, thrown, bad_read, endless, continue, return, refuse, ◌>>=◌, ◌>>◌,
}
use qq_copy.Redis.{
  Redis, va_list, Argument, Reply, reply, Body, reply_string, reply_array, reply_integer, reply_nil,
  reply_status, reply_error, Elements, no_elements, element,
}
use qq_copy.Redis.Books.{
  Books, tracked, good_books, give_back, give_back-books, addresses, receive_reply,
}
use qq_copy.Mysql.Ledger.{member}
use qq_copy.Cache.Counters.{
  number_or_throw, stoi_or_throw, push_friends, listed_friends, elements_of, count_of, friends_of,
}
use qq_copy.Cache.{
  is_error, accept_reply, free_reply, write_command, send_command, read_command, read_reply,
  safe_command,
}

-- The books after an action: as they were, or with the one reply that it did not free where it throws,
-- which it does only where `throws` says so.
abbrev pub Freed : {W A : Type 0} → Bool → List ℕ → List ℕ → Exit A × (W × Books) → Type 0
Freed throws C L (returned a, (w, b)) = b ≡ good_books C L
Freed throws C L (refused, (w, b)) = b ≡ good_books C L
Freed throws C L (thrown, (w, b)) =
    (throws ≡ true) × (r : Reply) × (b ≡ good_books C (addresses r ++ L))
Freed throws C L (bad_read, (w, b)) = ⊥
Freed throws C L (endless, (w, b)) = ⊥

-- A method's use of the context leaves the books as they were, but for a reply where it throws.
abbrev pub Frees : (R : Redis) {A : Type 0} → Bool → (ℕ → Io (R.World × Books) A) → Type 0
Frees R throws body =
    (C L : List ℕ) (ctx : ℕ) (w : R.World)
    → member ctx C ≡ true
    → Freed throws C L (body ctx (w, good_books C L))

module _ (R : Redis) where
  accepted-Freed :
      (C L : List ℕ) (r : Option Reply) (w : R.World)
      → Freed false C L (accept_reply (tracked R) r (w, receive_reply r (good_books C L)))
  unfolding accept_reply free_reply
  accepted-Freed C L none w = refl
  accepted-Freed C L (some r) w = freed (is_error r)
    where
      freed :
          (error : Bool)
          → Freed false C L (
              (if error
                  then (free_reply (tracked R) (some r) >> refuse)
                  else (free_reply (tracked R) (some r) >> return tt))
                (w, receive_reply (some r) (good_books C L)))
      freed true = give_back-books C L r
      freed false = give_back-books C L r

  pub write_command-Frees :
      (format : List ℕ) (args : List Argument)
      → Frees R false (write_command (tracked R) format args)
  unfolding write_command safe_command
  write_command-Frees format args C L ctx w m = rw m (accepted-Freed C L _ _)

  pub send_command-Frees :
      (format : List ℕ) (args : List Argument)
      → Frees R false (send_command (tracked R) format args)
  unfolding send_command safe_command
  send_command-Frees format args C L ctx w m = rw m (sent _ _)
    where
      sent :
          (r : Option Reply) (v : R.World)
          → Freed false C L (
              continue
                (free_reply (tracked R) r (v, receive_reply r (good_books C L)))
                (λ _. return tt))
      sent none v = refl
      sent (some r) v = give_back-books C L r

-- An action that reads a reply: it leaves the state as it was, and returns, or throws where `throws`
-- says so.
abbrev pub Quiet : {W A : Type 0} → Bool → W → Exit A × W → Type 0
Quiet throws v (returned a, w) = w ≡ v
Quiet throws v (thrown, w) = (throws ≡ true) × (w ≡ v)
Quiet throws v (refused, w) = ⊥
Quiet throws v (bad_read, w) = ⊥
Quiet throws v (endless, w) = ⊥

pub Freed-continue :
    {W A B : Type 0} (throws : Bool) (C L : List ℕ) (r : Exit A × (W × Books))
    (f : A → Io (W × Books) B)
    → Freed throws C L r
    → ((a : A) (w : W) → Freed throws C L (f a (w, good_books C L)))
    → Freed throws C L (continue r f)
Freed-continue throws C L (returned a, (w, b)) f h k = rw h (k a w)
Freed-continue throws C L (refused, (w, b)) f h k = h
Freed-continue throws C L (thrown, (w, b)) f h k = h
Freed-continue throws C L (bad_read, (w, b)) f h k = absurd h
Freed-continue throws C L (endless, (w, b)) f h k = absurd h

module _ {W : Type 0} where
  Quiet-number :
      {A : Type 0} (o : Option (ℤ × List ℕ)) (s : W) (f : ℤ → Io W A)
      → ((n : ℤ) → Quiet true s (f n s))
      → Quiet true s (continue (number_or_throw o s) f)
  unfolding number_or_throw
  Quiet-number none s f h = (refl, refl)
  Quiet-number (some (n, rest)) s f h = h n

  Quiet-stoi :
      {A : Type 0} (str : List ℕ) (s : W) (f : ℤ → Io W A)
      → ((n : ℤ) → Quiet true s (f n s))
      → Quiet true s (continue (stoi_or_throw str s) f)
  unfolding stoi_or_throw
  Quiet-stoi str s f h = Quiet-number (stoi str) s f h

  pub push_friends-Quiet :
      (items : Elements) (friends : List ℤ) (s : W) → Quiet true s (push_friends items friends s)
  unfolding push_friends
  push_friends-Quiet no_elements friends s = refl
  push_friends-Quiet (element (reply p (reply_string str)) rest) friends s =
      Quiet-stoi str s _ (λ n. push_friends-Quiet rest (friends ++ n ∷ []) s)
  push_friends-Quiet (element (reply p (reply_array items)) rest) friends s =
      push_friends-Quiet rest friends s
  push_friends-Quiet (element (reply p (reply_integer n)) rest) friends s =
      push_friends-Quiet rest friends s
  push_friends-Quiet (element (reply p reply_nil) rest) friends s =
      push_friends-Quiet rest friends s
  push_friends-Quiet (element (reply p reply_status) rest) friends s =
      push_friends-Quiet rest friends s
  push_friends-Quiet (element (reply p reply_error) rest) friends s =
      push_friends-Quiet rest friends s

  pub count_of-Quiet : (body : Body) (s : W) → Quiet true s (count_of body s)
  unfolding count_of
  count_of-Quiet (reply_string str) s = Quiet-stoi str s _ (λ n. refl)
  count_of-Quiet reply_nil s = refl
  count_of-Quiet (reply_array items) s = refl
  count_of-Quiet (reply_integer n) s = refl
  count_of-Quiet reply_status s = refl
  count_of-Quiet reply_error s = refl

module _ (R : Redis) where
  -- What is read from a live reply, and then the reply is freed, but not where the reading throws.
  read-Freed :
      {A : Type 0} (throws : Bool) (C L : List ℕ) (r : Reply) (w : R.World)
      (got : Exit A × (R.World × Books))
      → Quiet throws (w, good_books C (addresses r ++ L)) got
      → Freed throws C L
          (continue got (λ a. free_reply (tracked R) (some r) >> return {W = R.World × Books} a))
  unfolding free_reply
  read-Freed throws C L r w (returned a, s) h = ap (λ t. give_back r t.1) h ∙ give_back-books C L r
  read-Freed throws C L r w (thrown, s) h = (h.0, r, ap (λ t. t.1) h.1)
  read-Freed throws C L r w (refused, s) h = absurd h
  read-Freed throws C L r w (bad_read, s) h = absurd h
  read-Freed throws C L r w (endless, s) h = absurd h

  pub read_command-Frees :
      {A B : Type 0} (throws : Bool) (format : List ℕ) (args : List Argument)
      (read : Body → Io (R.World × Books) A) (finish : A → Io (R.World × Books) B)
      → ((body : Body) (s : R.World × Books) → Quiet throws s (read body s))
      → ((C L : List ℕ) (a : A) (w : R.World) → Freed throws C L (finish a (w, good_books C L)))
      → Frees R throws (λ ctx. read_command (tracked R) format args read ctx >>= finish)
  unfolding read_command safe_command read_reply
  read_command-Frees throws format args read finish quiet finishes C L ctx w m =
      Freed-continue throws C L _ finish
        (rw m (
          received (R.redis_command ctx format (va_list args) w).0
            (R.redis_command ctx format (va_list args) w).1))
        (finishes C L)
    where
      received :
          (r : Option Reply) (v : R.World)
          → Freed throws C L (read_reply (tracked R) read r (v, receive_reply r (good_books C L)))
      received none v = refl
      received (some (reply p body)) v =
          read-Freed throws C L (reply p body) v _
            (quiet body (v, good_books C (addresses (reply p body) ++ L)))

  pub friends_of-Freed :
      (C L : List ℕ) (r : Option Reply) (friends : List ℤ) (w : R.World)
      → Freed true C L (friends_of (tracked R) r friends (w, receive_reply r (good_books C L)))
  unfolding friends_of listed_friends free_reply
  friends_of-Freed C L none friends w = refl
  friends_of-Freed C L (some r) friends w = listed (elements_of r)
    where
      listed :
          (items : Option Elements)
          → Freed true C L (
              listed_friends
                (tracked R)
                r
                items
                friends
                (w, receive_reply (some r) (good_books C L)))
      listed none = give_back-books C L r
      listed (some found) =
          read-Freed true C L r w _
            (push_friends-Quiet found friends (w, good_books C (addresses r ++ L)))

  pub get_friends-Frees :
      (format : List ℕ) (args : List Argument) (friends : List ℤ)
      → Frees R true (λ ctx.
        safe_command (tracked R) (some ctx) format args >>= λ r. friends_of (tracked R) r friends)
  unfolding safe_command
  get_friends-Frees format args friends C L ctx w m = rw m (friends_of-Freed C L _ friends _)
