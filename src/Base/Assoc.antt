-- ===== src/Base/Assoc.antt =====
-- `std::unordered_map` as an association list: at most the newest entry of a key counts.
use mathlib.Core.Path.{◌≡◌, refl, sym, ◌∙◌}
use mathlib.Core.Logic.{◌⊎◌, inl, inr}
use mathlib.Core.Bool.{Bool, true, false}
use mathlib.Core.List.{List, [], ◌∷◌}
use mathlib.Core.Option.{Option, none, some}
use native.Mathlib.Omega.{arith}
use qq_copy.Base.Tests.{Eq, if◌then◌else◌, some-eq, none-ne-some}

abbrev pub Assoc {ℓ κ} : Type ℓ → Type κ → Type (ℓ ⊔ κ)
Assoc K V = List (K × V)

module _ {ℓ κ} {K : Type ℓ} {V : Type κ} ⦃e : Eq K⦄ where
  -- `find`: the value of a key.
  unfoldable pub lookup : K → Assoc K V → Option V
  lookup k [] = none
  lookup k ((j, v) ∷ m) = if e.beq j k then some v else lookup k m

  -- `m[k] = v`
  unfoldable pub insert : K → V → Assoc K V → Assoc K V
  insert k v [] = (k, v) ∷ []
  insert k v ((j, w) ∷ m) = if e.beq j k then (k, v) ∷ m else (j, w) ∷ insert k v m

  -- `m.erase(k)`
  unfoldable pub erase : K → Assoc K V → Assoc K V
  erase k [] = []
  erase k ((j, w) ∷ m) = if e.beq j k then erase k m else (j, w) ∷ erase k m

  pub lookup-insert :
      (k j : K) (v : V) (m : Assoc K V)
      → lookup j (insert k v m) ≡ (if e.beq k j then some v else lookup j m)
  unfolding lookup insert
  lookup-insert k j v [] = refl
  lookup-insert k j v ((i, w) ∷ m) =
      ground (arith, e.beq_iff k j, e.beq_iff i k, e.beq_iff i j, lookup-insert k j v m)

  pub lookup-erase :
      (k j : K) (m : Assoc K V) → lookup j (erase k m) ≡ (if e.beq k j then none else lookup j m)
  unfolding lookup erase
  lookup-erase k j [] = ground arith
  lookup-erase k j ((i, w) ∷ m) =
      ground (arith, e.beq_iff k j, e.beq_iff i k, e.beq_iff i j, lookup-erase k j m)

  -- Where a found value comes from.
  pub lookup-insert_cases :
      (k j : K) (v w : V) (m : Assoc K V)
      → lookup j (insert k v m) ≡ some w
      → ((k ≡ j) × (v ≡ w)) ⊎ ((e.beq k j ≡ false) × (lookup j m ≡ some w))
  lookup-insert_cases k j v w m found = split (e.beq k j) refl (sym (lookup-insert k j v m) ∙ found)
    where
      split :
          (b : Bool)
          → e.beq k j ≡ b
          → (if b then some v else lookup j m) ≡ some w
          → ((k ≡ j) × (v ≡ w)) ⊎ ((e.beq k j ≡ false) × (lookup j m ≡ some w))
      split true same at = inl ((e.beq_iff k j).0 same, some-eq at)
      split false other at = inr (other, at)

  pub lookup-erase_cases :
      (k j : K) (w : V) (m : Assoc K V) → lookup j (erase k m) ≡ some w → lookup j m ≡ some w
  lookup-erase_cases k j w m found = split (e.beq k j) (sym (lookup-erase k j m) ∙ found)
    where
      split : (b : Bool) → (if b then none else lookup j m) ≡ some w → lookup j m ≡ some w
      split true at = absurd (none-ne-some at)
      split false at = at
