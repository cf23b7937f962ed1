-- ===== src/Mysql/Counts.antt =====
-- Lists of pointers with the same pointers in them, each as often.
use qq_copy.Base.{
  ℕ, suc, ◌≡◌, refl, ◌∙◌, List, [], ◌∷◌, ◌++◌, true, ◌==◌, ==_iff, if◌then◌else◌, arith,
}
use qq_copy.Mysql.Ledger.{member, remove}

abbrev pub count : ℕ → List ℕ → ℕ
count h [] = 0
count h (x ∷ xs) = let rest = count h xs in if h == x then suc rest else rest

abbrev pub Same : List ℕ → List ℕ → Type 0
Same l k = (h : ℕ) → count h l ≡ count h k

pub Same-cons : (x : ℕ) (l k : List ℕ) → Same l k → Same (x ∷ l) (x ∷ k)
Same-cons x l k s h = rw (s h) refl

count-remove : (h x : ℕ) (l : List ℕ) → member x l ≡ true → count h (x ∷ remove x l) ≡ count h l
count-remove h x [] m = absurd (cc)
count-remove h x (y ∷ l) m = ground (arith, count-remove h x l)

-- A pointer taken off both sides.
pub Same-remove : (x : ℕ) (l k : List ℕ) → member x l ≡ true → Same l (x ∷ k) → Same (remove x l) k
Same-remove x l k m s h =
    let e : count h (x ∷ remove x l) ≡ count h (x ∷ k) = count-remove h x l m ∙ s h in ground arith

count-member : (x : ℕ) (l : List ℕ) (n : ℕ) → count x l ≡ suc n → member x l ≡ true
count-member x [] n e = absurd (omega arith)
count-member x (y ∷ l) n e = ground (arith, count-member x l n)

pub Same-member : (x : ℕ) (l k : List ℕ) → Same l (x ∷ k) → member x l ≡ true
Same-member x l k s =
    let e : count x (x ∷ k) ≡ suc (count x k) = rw ((==_iff x x).1 refl) refl in
    count-member x l (count x k) (s x ∙ e)

pub Same-append : (x : ℕ) (l k : List ℕ) → Same l (x ∷ k) → Same l (k ++ x ∷ [])
Same-append x l k s h = s h ∙ count-snoc h x k
  where
    count-snoc : (h x : ℕ) (k : List ℕ) → count h (x ∷ k) ≡ count h (k ++ x ∷ [])
    count-snoc h x [] = refl
    count-snoc h x (y ∷ k) = ground (arith, count-snoc h x k)

pub Same-nil : (l : List ℕ) → Same l [] → l ≡ []
Same-nil [] s = refl
Same-nil (x ∷ l) s =
    let e : count x (x ∷ l) ≡ suc (count x l) = rw ((==_iff x x).1 refl) refl in
    let z = s x in absurd (omega arith)
