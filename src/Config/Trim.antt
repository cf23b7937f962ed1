-- ===== src/Config/Trim.antt =====
-- What trim keeps (server/src/main.cpp).
use qq_copy.Base.{
  ℕ, ◌≡◌, refl, ap, ◌∙◌, inl, inr, List, [], ◌∷◌, ◌++◌, All, true, false, Bool-cases,
}
use qq_copy.Config.{is_blank, drop_blank, keep_last, drop_blank_end, trim}

-- Neither the first nor the last character is blank.
abbrev pub StartsFilled : List ℕ → Type 0
StartsFilled [] = Unit {0}
StartsFilled (c ∷ str) = is_blank c ≡ false

abbrev pub EndsFilled : List ℕ → Type 0
EndsFilled [] = Unit {0}
EndsFilled (c ∷ []) = is_blank c ≡ false
EndsFilled (c ∷ d ∷ str) = EndsFilled (d ∷ str)

abbrev pub AllBlank : List ℕ → Type 0
AllBlank = All (λ c. is_blank c ≡ true)

drop_blank-split :
    (str : List ℕ)
    → (before : List ℕ) × AllBlank before
      × (str ≡ before ++ drop_blank str)
      × StartsFilled (drop_blank str)
unfolding drop_blank
drop_blank-split [] = ([], tt, refl, tt)
drop_blank-split (c ∷ str) = elim (Bool-cases (is_blank c)) [
  | inl blank ↦
      let (before, blanks, e, filled) = drop_blank-split str in
      rw (blank, drop_blank) (c ∷ before, (blank, blanks), ap (λ s. c ∷ s) e, filled)
  | inr full ↦ rw (full, drop_blank) ([], tt, refl, full)
]

keep_last-split :
    (c : ℕ) (rest after : List ℕ)
    → AllBlank after
    → EndsFilled rest
    → (after2 : List ℕ) × AllBlank after2
      × (c ∷ (rest ++ after) ≡ keep_last c rest ++ after2)
      × EndsFilled (keep_last c rest)
unfolding keep_last
keep_last-split c [] after blanks filled = elim (Bool-cases (is_blank c)) [
  | inl blank ↦ rw (blank, keep_last) (c ∷ after, (blank, blanks), refl, tt)
  | inr full ↦ rw (full, keep_last) (after, blanks, refl, full)
]
keep_last-split c (d ∷ rest) after blanks filled = (after, blanks, refl, filled)

drop_blank_end-split :
    (str : List ℕ)
    → (after : List ℕ) × AllBlank after
      × (str ≡ drop_blank_end str ++ after)
      × EndsFilled (drop_blank_end str)
unfolding drop_blank_end
drop_blank_end-split [] = ([], tt, refl, tt)
drop_blank_end-split (c ∷ str) =
    let (after, blanks, e, filled) = drop_blank_end-split str in
    let (after2, blanks2, e2, filled2) =
      keep_last-split c (drop_blank_end str) after blanks filled in
    (after2, blanks2, ap (λ s. c ∷ s) e ∙ e2, filled2)

keep_last-StartsFilled :
    (c : ℕ) (rest : List ℕ) → is_blank c ≡ false → StartsFilled (keep_last c rest)
unfolding keep_last
keep_last-StartsFilled c [] full = rw (full, keep_last) full
keep_last-StartsFilled c (d ∷ rest) full = full

drop_blank_end-StartsFilled : (str : List ℕ) → StartsFilled str → StartsFilled (drop_blank_end str)
unfolding drop_blank_end
drop_blank_end-StartsFilled [] h = tt
drop_blank_end-StartsFilled (c ∷ str) h = keep_last-StartsFilled c (drop_blank_end str) h

-- `trim` takes blanks off both ends of any string and nothing else, and what is left neither begins
-- nor ends with a blank.
pub trim_is_exact :
    (str : List ℕ)
    → (before after : List ℕ) × AllBlank before
      × AllBlank after
      × (str ≡ before ++ (trim str ++ after))
      × StartsFilled (trim str)
      × EndsFilled (trim str)
unfolding trim
trim_is_exact str =
    let (before, blanks, e, filled) = drop_blank-split str in
    let (after, blanks2, e2, filled2) = drop_blank_end-split (drop_blank str) in
    (
      before,
      after,
      blanks,
      blanks2,
      e ∙ ap (λ s. before ++ s) e2,
      drop_blank_end-StartsFilled (drop_blank str) filled,
      filled2,
    )
