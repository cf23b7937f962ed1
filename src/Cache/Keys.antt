-- ===== src/Cache/Keys.antt =====
-- The keys of the entries of a user (server/src/cache_manager.cpp).
use qq_copy.Base.{
  ℕ, zero, suc, ◌+◌, ◌/◌, ◌%◌, ◌≤◌, ltb, ltb→lt, ◌<◌, ◌≡◌, ◌≢◌, refl, sym, ap, ◌∙◌, List, [], ◌∷◌,
  ◌++◌, true, false, ◌==◌, Bool-cases, inl, inr, if◌then◌else◌, arith,
}
use qq_copy.Base.Int.{ℤ, pos, negsuc}
use qq_copy.Base.Text.{utf8}
use qq_copy.Config.{is_digit, read_digits}
use qq_copy.Config.Numbers.{digits, digits-front, read_digits-digits}
use qq_copy.Cache.{to_string, build_key, user_key}

-- The characters before the first colon, and those behind it.
abbrev until_colon : List ℕ → List ℕ
until_colon [] = []
until_colon (c ∷ s) = let rest = until_colon s in if c == b':' then [] else c ∷ rest

abbrev after_colon : List ℕ → List ℕ
after_colon [] = []
after_colon (c ∷ s) = let rest = after_colon s in if c == b':' then s else rest

abbrev NoColon : List ℕ → Type 0
NoColon [] = Unit {0}
NoColon (c ∷ s) = ((c == b':') ≡ false) × NoColon s

until_colon-append : (s t : List ℕ) → NoColon s → until_colon (s ++ b':' ∷ t) ≡ s
until_colon-append [] t h = refl
until_colon-append (c ∷ s) t h = rw (h.0) (ap (◌∷◌ c) (until_colon-append s t h.1))

after_colon-append : (s t : List ℕ) → NoColon s → after_colon (s ++ b':' ∷ t) ≡ t
after_colon-append [] t h = refl
after_colon-append (c ∷ s) t h = rw (h.0) (after_colon-append s t h.1)

digit_no_colon : (n : ℕ) → n < 10 → ((b'0' + n) == b':') ≡ false
digit_no_colon n h = ground arith

digits-NoColon :
    (fuel n : ℕ) (rest : List ℕ) → n < fuel → NoColon rest → NoColon (digits fuel n rest)
digits-NoColon zero n rest h k = absurd (omega arith)
digits-NoColon (suc fuel) n rest h k = elim (Bool-cases (ltb n 10)) [
  | inl small ↦ rw small (digit_no_colon n (ltb→lt n 10 small), k)
  | inr large ↦
      let big : 10 ≤ n = ground arith in
      rw large (
        digits-NoColon fuel (n / 10) ((b'0' + n % 10) ∷ rest) (omega arith)
          (digit_no_colon (n % 10) (omega arith), k))
]

to_string-NoColon : (a : ℤ) → NoColon (to_string a)
unfolding to_string
to_string-NoColon (pos n) = digits-NoColon (suc n) n [] (omega arith) tt
to_string-NoColon (negsuc n) = (refl, digits-NoColon (suc (suc n)) (suc n) [] (omega arith) tt)

digits-injective : (m n : ℕ) → digits (suc m) m [] ≡ digits (suc n) n [] → m ≡ n
unfolding read_digits
digits-injective m n e =
    ap (λ r. r.0)
      (sym (read_digits-digits (suc m) m [] (omega arith))
        ∙ ap (read_digits 0) e
        ∙ read_digits-digits (suc n) n [] (omega arith))

digits_not_minus : (m : ℕ) (s : List ℕ) → digits (suc m) m [] ≢ b'-' ∷ s
unfolding is_digit
digits_not_minus m s e =
    let (d, more, f, digit) = digits-front (suc m) m [] (omega arith) in
    let same : d ≡ b'-' = cc in
    let digit2 : is_digit b'-' ≡ true = ap is_digit (sym same) ∙ digit in cc

to_string-injective : (a b : ℤ) → to_string a ≡ to_string b → a ≡ b
unfolding to_string
to_string-injective (pos m) (pos n) e = ap pos (digits-injective m n e)
to_string-injective (pos m) (negsuc n) e = absurd (digits_not_minus m _ e)
to_string-injective (negsuc m) (pos n) e = absurd (digits_not_minus n _ (sym e))
to_string-injective (negsuc m) (negsuc n) e =
    let tails : digits (suc (suc m)) (suc m) [] ≡ digits (suc (suc n)) (suc n) [] = cc in
    let same = digits-injective (suc m) (suc n) tails in ap negsuc (omega arith)

-- The keys of two entries, the names of which begin with a colon as all that the cache uses, are the
-- same only for the same user and the same name.
pub user_keys_differ :
    (a b : ℤ) (x y : List ℕ) → user_key a (b':' ∷ x) ≡ user_key b (b':' ∷ y) → (a ≡ b) × (x ≡ y)
unfolding user_key build_key utf8
user_keys_differ a b x y e =
    let tails : to_string a ++ b':' ∷ x ≡ to_string b ++ b':' ∷ y = ap after_colon e in
    let na = to_string-NoColon a in
    let nb = to_string-NoColon b in
    (
      to_string-injective a b (
          sym (until_colon-append (to_string a) x na)
          ∙ ap until_colon tails
          ∙ until_colon-append (to_string b) y nb),
      sym (after_colon-append (to_string a) x na)
          ∙ ap after_colon tails
          ∙ after_colon-append (to_string b) y nb,
    )
