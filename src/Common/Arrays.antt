-- ===== src/Common/Arrays.antt =====
-- Laws of `includes`, `indexOf`, `splice` and of lists without repetition.
use sqlwarden.Common.Tests.{if◌then◌else◌, Option-cases}
use Prim.Native.Nat.{ℕ, zero, suc, ◌≤◌}
use mathlib.Core.Path.{◌≡◌, refl}
use mathlib.Core.Bool.{Bool, true, false, not, ◌||◌}
use mathlib.Core.Logic.{inl, inr}
use mathlib.Core.List.{List, [], ◌∷◌, ◌++◌}
use mathlib.Core.Option.{none, some}
use native.Mathlib.Omega.{arith}
use sqlwarden.Common.Tests.{Eq, ◌==◌, Bool-cases, or_else}
use sqlwarden.Common.Lists.{
  length, get_elem?, get_before?, insert_at, filter, find, includes, index_of, IsDistinct,
}

module _ {ℓ} {A : Type ℓ} where
  pub get_elem?-eq-none : (xs : List A) (i : ℕ) → get_elem? xs i ≡ none → length xs ≤ i
  get_elem?-eq-none [] i h = omega arith
  get_elem?-eq-none (x ∷ xs) zero h = cc
  get_elem?-eq-none (x ∷ xs) (suc i) h = omega (arith, get_elem?-eq-none xs i h)

  pub get_elem?-eq-none_zero : (xs : List A) → get_elem? xs 0 ≡ none → xs ≡ []
  get_elem?-eq-none_zero [] h = refl
  get_elem?-eq-none_zero (x ∷ xs) h = cc

module _ {ℓ} {A : Type ℓ} ⦃e : Eq A⦄ where
  -- `xs.filter((x) => x !== a)`.
  abbrev pub without : A → List A → List A
  without a xs = filter (λ x. not (x == a)) xs

  pub includes-append :
      (xs ys : List A) (a : A) → includes (xs ++ ys) a ≡ (includes xs a || includes ys a)
  includes-append [] ys a = refl
  includes-append (x ∷ xs) ys a = ground (arith, includes-append xs ys a)

  pub includes-without :
      (a : A) (xs : List A) (b : A)
      → includes (without a xs) b ≡ (if b == a then false else includes xs b)
  includes-without a [] b = ground arith
  includes-without a (x ∷ xs) b =
      ground (arith, includes-without a xs b, e.test_iff x a, e.test_iff x b, e.test_iff b a)

  pub includes-filter_of_not :
      (p : A → Bool) (xs : List A) (b : A)
      → includes xs b ≡ false
      → includes (filter p xs) b ≡ false
  includes-filter_of_not p [] b h = refl
  includes-filter_of_not p (x ∷ xs) b h = ground (arith, includes-filter_of_not p xs b)

  pub IsDistinct-filter : (p : A → Bool) (xs : List A) → IsDistinct xs → IsDistinct (filter p xs)
  IsDistinct-filter p [] h = tt
  IsDistinct-filter p (x ∷ xs) (k, h) =
      ground (arith, IsDistinct-filter p xs h, includes-filter_of_not p xs x k)

  pub includes-insert_at :
      (i : ℕ) (v : A) (xs : List A) (b : A)
      → includes (insert_at i v xs) b ≡ (v == b || includes xs b)
  includes-insert_at zero v xs b = refl
  includes-insert_at (suc i) v [] b = refl
  includes-insert_at (suc i) v (x ∷ xs) b = ground (arith, includes-insert_at i v xs b)

  pub IsDistinct-insert_at :
      (i : ℕ) (v : A) (xs : List A)
      → includes xs v ≡ false
      → IsDistinct xs
      → IsDistinct (insert_at i v xs)
  IsDistinct-insert_at zero v xs n h = (n, h)
  IsDistinct-insert_at (suc i) v [] n h = (refl, tt)
  IsDistinct-insert_at (suc i) v (x ∷ xs) n (k, h) = ground (
    arith,
    includes-insert_at i v xs x,
    IsDistinct-insert_at i v xs,
    e.test_iff x v,
    e.test_iff v x,
  )

  pub IsDistinct-append_one :
      (xs : List A) (v : A) → includes xs v ≡ false → IsDistinct xs → IsDistinct (xs ++ v ∷ [])
  IsDistinct-append_one [] v n h = (refl, tt)
  IsDistinct-append_one (x ∷ xs) v n (k, h) = ground (
    arith,
    includes-append xs (v ∷ []) x,
    IsDistinct-append_one xs v,
    e.test_iff x v,
    e.test_iff v x,
  )

  pub find-without :
      (a : A) (xs : List A) → find (λ x. not (x == a)) xs ≡ get_elem? (without a xs) 0
  find-without a [] = refl
  find-without a (x ∷ xs) = ground (arith, find-without a xs)

  pub includes-get_elem? :
      (xs : List A) (i : ℕ) (a : A) → get_elem? xs i ≡ some a → includes xs a ≡ true
  includes-get_elem? [] i a h = cc
  includes-get_elem? (x ∷ xs) zero a h = ground (arith, e.test_iff x a)
  includes-get_elem? (x ∷ xs) (suc i) a h = ground (arith, includes-get_elem? xs i a)

  pub includes-get_before? :
      (xs : List A) (i : ℕ) (a : A) → get_before? xs i ≡ some a → includes xs a ≡ true
  includes-get_before? xs zero a h = cc
  includes-get_before? xs (suc i) a h = includes-get_elem? xs i a h

  index_of-le-length-without :
      (a : A) (xs : List A) (i : ℕ) → index_of xs a ≡ some i → i ≤ length (without a xs)
  index_of-le-length-without a [] i h = cc
  index_of-le-length-without a (x ∷ xs) i h = elim (Bool-cases (x == a)) [
    | inl q ↦ ground arith
    | inr q ↦ elim (Option-cases (index_of xs a)) [
      | inl n ↦ ground arith
      | inr (j, m) ↦ ground (arith, index_of-le-length-without a xs j m)
    ]
  ]

  -- What stands at the place of a removed element, or before it, unless nothing is left.
  pub neighbour-without :
      (a : A) (xs : List A) (i : ℕ)
      → index_of xs a ≡ some i
      → or_else (get_elem? (without a xs) i) (get_before? (without a xs) i) ≡ none
      → without a xs ≡ []
  neighbour-without a xs zero h k = get_elem?-eq-none_zero (without a xs) (ground arith)
  neighbour-without a xs (suc i) h k = absurd (
      omega (
        arith,
        index_of-le-length-without a xs (suc i) h,
        get_elem?-eq-none (without a xs) i (ground arith),
      ))

  pub index_of-includes :
      (xs : List A) (a : A) → includes xs a ≡ true → (i : ℕ) × (index_of xs a ≡ some i)
  index_of-includes [] a h = cc
  index_of-includes (x ∷ xs) a h = elim (Bool-cases (x == a)) [
    | inl q ↦ (0, rw q)
    | inr q ↦ let (i, r) = index_of-includes xs a (ground arith) in (suc i, rw (q, r))
  ]

  pub length-includes : (xs : List A) (a : A) → includes xs a ≡ true → 1 ≤ length xs
  length-includes [] a h = cc
  length-includes (x ∷ xs) a h = omega arith
