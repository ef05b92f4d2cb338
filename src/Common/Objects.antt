-- ===== src/Common/Objects.antt =====
-- A plain object used as a dictionary: an association list, each key once where it is built by
-- `insert`. The theorems read it by `lookup` alone, so the order of its entries does not matter.
use mathlib.Core.Path.{◌≡◌, refl}
use mathlib.Core.List.{List, [], ◌∷◌}
use mathlib.Core.Option.{Option, none, some}
use native.Mathlib.Omega.{arith}
use mathlib.Core.Path.{subst}
use mathlib.Core.Logic.{inl, inr}
use mathlib.Core.Bool.{false}
use sqlwarden.Common.Tests.{Bool-cases, if◌then◌else◌, Eq, ◌==◌, beq_refl}

abbrev pub Dict {ℓ κ} : Type ℓ → Type κ → Type (ℓ ⊔ κ)
Dict K V = List (K × V)

module _ {ℓ κ} {K : Type ℓ} {V : Type κ} ⦃e : Eq K⦄ where
  -- `m[k]`.
  unfoldable pub lookup : K → Dict K V → Option V
  lookup k [] = none
  lookup k ((j, v) ∷ m) = if j == k then some v else lookup k m

  -- `{ ...m, [key]: value }`.
  unfoldable pub insert : K → V → Dict K V → Dict K V
  insert key value [] = (key, value) ∷ []
  insert key value ((other, old) ∷ rest) =
      if other == key then (key, value) ∷ rest else (other, old) ∷ insert key value rest

  -- `const { [k]: _, ...rest } = m`.
  unfoldable pub erase : K → Dict K V → Dict K V
  erase k [] = []
  erase k ((j, v) ∷ m) = if j == k then erase k m else (j, v) ∷ erase k m

  pub lookup-insert :
      (key j : K) (value : V) (m : Dict K V)
      → lookup j (insert key value m) ≡ (if key == j then some value else lookup j m)
  unfolding insert lookup
  lookup-insert key j value [] = refl
  lookup-insert key j value ((other, old) ∷ rest) = ground (
    arith,
    lookup-insert key j value rest,
    e.test_iff other j,
    e.test_iff other key,
    e.test_iff key j,
  )

  pub lookup-insert_self : (k : K) (v : V) (m : Dict K V) → lookup k (insert k v m) ≡ some v
  lookup-insert_self k v m = ground (arith, lookup-insert k k v m, beq_refl k)

  pub lookup-erase :
      (k j : K) (m : Dict K V) → lookup j (erase k m) ≡ (if k == j then none else lookup j m)
  unfolding lookup erase
  lookup-erase k j [] = ground arith
  lookup-erase k j ((i, w) ∷ m) =
      ground (arith, e.test_iff k j, e.test_iff i k, e.test_iff i j, lookup-erase k j m)

  pub lookup-erase_self : (k : K) (m : Dict K V) → lookup k (erase k m) ≡ none
  lookup-erase_self k m = ground (arith, lookup-erase k k m, beq_refl k)

  pub ne_of_lookup :
      (k j : K) (m : Dict K V) {v : V} → lookup k m ≡ none → lookup j m ≡ some v → (k == j) ≡ false
  ne_of_lookup k j m h l = elim (Bool-cases (k == j)) [
    | inr o ↦ o
    | inl q ↦
        let p : k ≡ j = (e.test_iff k j).0 q in
        let h' : lookup j m ≡ none = subst (λ i. lookup i m ≡ none) p h in cc
  ]
