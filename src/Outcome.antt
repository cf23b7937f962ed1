-- ===== src/Outcome.antt =====
-- The outcome of a decoder: a value, a refusal (`return false`), or a read outside the buffer.
use qq_copy.Base.{
  ℕ, ◌≤◌, ◌≡◌, refl, ◌⊎◌, ◌≢◌, Bool, true, false, leb, le→leb, leb→le, Bool-cases, ◌==◌, ==_iff,
  inl, inr, ap,
}

pub data Outcome {ℓ} (A : Type ℓ) : Type ℓ where
  ok : A → Outcome A
  malformed : Outcome A
  fault : Outcome A

infixl 5 ◌>>=◌ ◌>>◌
abbrev pub ◌>>=◌ {ℓ κ} : {A : Type ℓ} {B : Type κ} → Outcome A → (A → Outcome B) → Outcome B
ok a >>= f = f a
malformed >>= f = malformed
fault >>= f = fault

abbrev pub ◌>>◌ {ℓ} : {B : Type ℓ} → Outcome (Unit {0}) → Outcome B → Outcome B
m >> k = m >>= λ _. k

-- `if (!test) return false;`
abbrev pub guard : Bool → Outcome (Unit {0})
guard true = ok tt
guard false = malformed

pub guard-le : (a b : ℕ) → a ≤ b → guard (leb a b) ≡ ok tt
guard-le a b h = ap guard (le→leb a b h)

-- A postcondition of a value; it also excludes a fault, and holds of a refusal.
abbrev pub Ensures {ℓ} : {A : Type ℓ} → Outcome A → (A → Type 0) → Type 0
Ensures (ok a) P = P a
Ensures malformed P = Unit {0}
Ensures fault P = ⊥

pub Ensures-ne-fault {ℓ} : {A : Type ℓ} (m : Outcome A) (P : A → Type 0) → Ensures m P → m ≢ fault
Ensures-ne-fault (ok a) P h = λ e. cc
Ensures-ne-fault malformed P h = λ e. cc
Ensures-ne-fault fault P h = absurd h

pub Ensures-bind {ℓ κ} :
    {A : Type ℓ} {B : Type κ} (P : A → Type 0) (Q : B → Type 0) (m : Outcome A) (f : A → Outcome B)
    → Ensures m P
    → ((a : A) → P a → Ensures (f a) Q)
    → Ensures (m >>= f) Q
Ensures-bind P Q (ok a) f h k = k a h
Ensures-bind P Q malformed f h k = tt
Ensures-bind P Q fault f h k = absurd h

-- The rest of a decoder may use what its guard has tested.
pub Ensures-guard {ℓ} :
    {B : Type ℓ} (Q : B → Type 0) (a b : ℕ) (k : Outcome B)
    → (a ≤ b → Ensures k Q)
    → Ensures (guard (leb a b) >> k) Q
Ensures-guard Q a b k h = elim (Bool-cases (leb a b)) [
  | inl e ↦ rw e (h (leb→le a b e))
  | inr e ↦ rw e tt
]

pub Ensures-guard_eq {ℓ} :
    {B : Type ℓ} (Q : B → Type 0) (a b : ℕ) (k : Outcome B)
    → (a ≡ b → Ensures k Q)
    → Ensures (guard (a == b) >> k) Q
Ensures-guard_eq Q a b k h = elim (Bool-cases (a == b)) [
  | inl e ↦ rw e (h ((==_iff a b).0 e))
  | inr e ↦ rw e tt
]

-- A postcondition of a value, where there is one.
abbrev pub Returns {ℓ} : {A : Type ℓ} → Outcome A → (A → Type 0) → Type 0
Returns (ok a) P = P a
Returns malformed P = ⊥
Returns fault P = ⊥

pub Returns-bind {ℓ κ} :
    {A : Type ℓ} {B : Type κ} (P : A → Type 0) (Q : B → Type 0) (m : Outcome A) (f : A → Outcome B)
    → Returns m P
    → ((a : A) → P a → Returns (f a) Q)
    → Returns (m >>= f) Q
Returns-bind P Q (ok a) f h k = k a h
Returns-bind P Q malformed f h k = absurd h
Returns-bind P Q fault f h k = absurd h

pub Returns-Ensures {ℓ} : {A : Type ℓ} (P : A → Type 0) (m : Outcome A) → Returns m P → Ensures m P
Returns-Ensures P (ok a) h = h
Returns-Ensures P malformed h = tt
Returns-Ensures P fault h = h

pub Returns-ok {ℓ} :
    {A : Type ℓ} (P : A → Type 0) (m : Outcome A) → Returns m P → (a : A) × (m ≡ ok a) × P a
Returns-ok P (ok a) h = (a, refl, h)
Returns-ok P malformed h = absurd h
Returns-ok P fault h = absurd h

pub Ensures-ok {ℓ} :
    {A : Type ℓ} (P : A → Type 0) (m : Outcome A) (a : A) → m ≡ ok a → Ensures m P → P a
Ensures-ok P m a e h = rw e at h

pub Ensures-weaken {ℓ} :
    {A : Type ℓ} (P Q : A → Type 0) (m : Outcome A)
    → ((a : A) → P a → Q a)
    → Ensures m P
    → Ensures m Q
Ensures-weaken P Q (ok a) k h = k a h
Ensures-weaken P Q malformed k h = tt
Ensures-weaken P Q fault k h = h

pub Outcome-cases {ℓ} :
    {A : Type ℓ} (m : Outcome A) → ((a : A) × (m ≡ ok a)) ⊎ ((m ≡ malformed) ⊎ (m ≡ fault))
Outcome-cases (ok a) = inl (a, refl)
Outcome-cases malformed = inr (inl refl)
Outcome-cases fault = inr (inr refl)

pub Returns-weaken {ℓ} :
    {A : Type ℓ} (P Q : A → Type 0) (m : Outcome A)
    → ((a : A) → P a → Q a)
    → Returns m P
    → Returns m Q
Returns-weaken P Q (ok a) k h = k a h
Returns-weaken P Q malformed k h = h
Returns-weaken P Q fault k h = h
