-- ===== src/Io.antt =====
-- Methods of DatabasePool and CacheManager (server/src/database_pool.cpp and
-- server/src/cache_manager.cpp) as actions on the state of the C library that they call. A failed
-- method keeps what its calls have done.
use qq_copy.Base.{Option, none, some}

-- How a method ends: `return true` with what it wrote to its out parameters, `return false`, an
-- exception, a read of a variable that was never written or of a char array behind its bytes, or
-- rows without an end.
pub data Exit (A : Type 0) : Type 0 where
  returned : A → Exit A
  refused thrown bad_read endless : Exit A

-- The same, or a wait that nobody ends.
pub data Result (A : Type 0) : Type 0 where
  ended : Exit A → Result A
  blocked : Result A

abbrev pub Io : Type 0 → Type 0 → Type 0
Io W A = W → Exit A × W

module _ {W : Type 0} where
  -- The rest of a method runs where the action has returned.
  abbrev pub continue : {A B : Type 0} → Exit A × W → (A → Io W B) → Exit B × W
  continue (returned a, w) f = f a w
  continue (refused, w) f = (refused, w)
  continue (thrown, w) f = (thrown, w)
  continue (bad_read, w) f = (bad_read, w)
  continue (endless, w) f = (endless, w)

  infixl 5 ◌>>=◌ ◌>>◌
  abbrev pub ◌>>=◌ : {A B : Type 0} → Io W A → (A → Io W B) → Io W B
  ◌>>=◌ m f w = continue (m w) f

  abbrev pub ◌>>◌ : {A B : Type 0} → Io W A → Io W B → Io W B
  m >> k = m >>= λ _. k

  abbrev pub return : {A : Type 0} → A → Io W A
  return a w = (returned a, w)

  abbrev pub refuse : {A : Type 0} → Io W A
  refuse w = (refused, w)

  abbrev pub throw : {A : Type 0} → Io W A
  throw w = (thrown, w)

  abbrev pub loop_for_ever : {A : Type 0} → Io W A
  loop_for_ever w = (endless, w)

  -- A call of the library.
  abbrev pub call : {A : Type 0} → (W → A × W) → Io W A
  call f w = let (a, w') = f w in (returned a, w')

  abbrev pub tell : (W → W) → Io W (Unit {0})
  tell f w = (returned tt, f w)

  abbrev pub or_bad_read : {A : Type 0} → Option A → Io W A
  or_bad_read none w = (bad_read, w)
  or_bad_read (some a) w = (returned a, w)
