-- ===== src/Config/Numbers.antt =====
-- What safe_stoi accepts (server/src/main.cpp).
use qq_copy.Base.{
  ℕ, zero, suc, ◌+◌, ◌*◌, ◌/◌, ◌%◌, ◌^◌, ◌<◌, ◌≤◌, ◌≡◌, refl, sym, ap, ◌∙◌, List, [], ◌∷◌, true,
  false, ◌==◌, ltb, lt→ltb, ltb→lt, Bool-cases, inl, inr, some, if◌then◌else◌, arith,
}
use qq_copy.Base.Int.{ℤ, pos}
use qq_copy.Config.{
  is_space, skip_space, is_digit, read_digits, read_number, in_range, stoi_signed, stoi_skipped,
  stoi, whole_value, safe_stoi,
}

-- The decimal digits of a number, in front of what follows; the fuel bounds the number.
abbrev pub digits : ℕ → ℕ → List ℕ → List ℕ
digits zero n rest = rest
digits (suc fuel) n rest =
    let front = digits fuel (n / 10) ((b'0' + n % 10) ∷ rest) in
    if ltb n 10 then (b'0' + n) ∷ rest else front

digit-is_digit : (n : ℕ) → n < 10 → is_digit (b'0' + n) ≡ true
unfolding is_digit
digit-is_digit n h = ground arith

read_digits-digit :
    (v n : ℕ) (rest : List ℕ)
    → n < 10
    → read_digits v ((b'0' + n) ∷ rest) ≡ read_digits (v * 10 + n) rest
unfolding read_digits
read_digits-digit v n rest h =
    rw (digit-is_digit n h, read_digits) (ap (λ k. read_digits (v * 10 + k) rest) (omega arith))

pub read_digits-digits :
    (fuel n : ℕ) (rest : List ℕ)
    → n < fuel
    → read_digits 0 (digits fuel n rest) ≡ read_digits n rest
read_digits-digits zero n rest h = absurd (omega arith)
read_digits-digits (suc fuel) n rest h = elim (Bool-cases (ltb n 10)) [
  | inl small ↦
      let zero_n : 0 * 10 + n ≡ n = omega arith in
      rw small
        (read_digits-digit 0 n rest (ltb→lt n 10 small) ∙ ap (λ k. read_digits k rest) zero_n)
  | inr large ↦
      let big : 10 ≤ n = ground arith in
      rw large (
        read_digits-digits fuel (n / 10) ((b'0' + n % 10) ∷ rest) (omega arith)
        ∙ read_digits-digit (n / 10) (n % 10) rest (omega arith)
        ∙ ap (λ k. read_digits k rest) (omega arith))
]

pub digits-front :
    (fuel n : ℕ) (rest : List ℕ)
    → n < fuel
    → (d : ℕ) × (more : List ℕ) × (digits fuel n rest ≡ d ∷ more) × (is_digit d ≡ true)
digits-front zero n rest h = absurd (omega arith)
digits-front (suc fuel) n rest h = elim (Bool-cases (ltb n 10)) [
  | inl small ↦ rw small (b'0' + n, rest, refl, digit-is_digit n (ltb→lt n 10 small))
  | inr large ↦
      let big : 10 ≤ n = ground arith in
      rw large (digits-front fuel (n / 10) ((b'0' + n % 10) ∷ rest) (omega arith))
]

digit_not_space : (d : ℕ) → is_digit d ≡ true → is_space d ≡ false
unfolding is_digit is_space
digit_not_space d h = ground arith

digit_not_sign : (d : ℕ) → is_digit d ≡ true → ((d == b'-') ≡ false) × ((d == b'+') ≡ false)
unfolding is_digit
digit_not_sign d h = ground arith

read_number-digit :
    (d : ℕ) (more : List ℕ) (n : ℕ)
    → is_digit d ≡ true
    → read_digits 0 (d ∷ more) ≡ (n, [])
    → read_number (d ∷ more) ≡ some (n, [])
unfolding read_number read_digits
read_number-digit d more n digit value =
    rw (digit, read_number) (ap some (rw (digit, read_digits) at value))

stoi_signed-number :
    (d : ℕ) (more : List ℕ) (n : ℕ)
    → is_digit d ≡ true
    → read_digits 0 (d ∷ more) ≡ (n, [])
    → n < 2 ^ 31
    → stoi_signed pos (d ∷ more) ≡ some (pos n, [])
unfolding stoi_signed in_range
stoi_signed-number d more n digit value small =
    rw (read_number-digit d more n digit value, stoi_signed) (rw (lt→ltb n (2 ^ 31) small))

safe_stoi-number :
    (d : ℕ) (more : List ℕ) (n : ℕ) (default_val : ℤ)
    → is_digit d ≡ true
    → read_digits 0 (d ∷ more) ≡ (n, [])
    → n < 2 ^ 31
    → safe_stoi (d ∷ more) default_val ≡ pos n
unfolding safe_stoi stoi skip_space stoi_skipped whole_value
safe_stoi-number d more n default_val digit value small =
    rw (digit_not_space d digit, skip_space)
      (rw ((digit_not_sign d digit).0, stoi_skipped)
        (rw ((digit_not_sign d digit).1, stoi_skipped)
          (ap (whole_value default_val) (stoi_signed-number d more n digit value small))))

-- The decimal digits of every int that is not negative are read as this number, whatever the default.
pub safe_stoi-digits :
    (n : ℕ) (default_val : ℤ) → n < 2 ^ 31 → safe_stoi (digits (suc n) n []) default_val ≡ pos n
unfolding read_digits
safe_stoi-digits n default_val small =
    let (d, more, e, digit) = digits-front (suc n) n [] (omega arith) in
    ap (λ s. safe_stoi s default_val) e
    ∙ safe_stoi-number d more n default_val digit
        (ap (read_digits 0) (sym e) ∙ read_digits-digits (suc n) n [] (omega arith)) small
