-- ===== src/Common/Lists.antt =====
-- The operations of JavaScript's arrays that the source uses, under their library names where these
-- exist: measured and indexed by native numbers, and tested by Booleans.
use Prim.Native.Nat.{ℕ, zero, suc, ◌+◌, ◌≤◌}
use mathlib.Core.Path.{◌≡◌, refl, ap, sym}
use mathlib.Core.Bool.{Bool, true, false, ◌&&◌, ◌||◌}
use mathlib.Core.List.{Memᴰ, List, [], ◌∷◌, ◌++◌, map}
use mathlib.Core.Option.{Option, none, some}
use native.Mathlib.Omega.{arith}
use mathlib.Core.Path.{subst}
use mathlib.Core.Logic.{inl, inr}
use sqlwarden.Common.Tests.{Bool-cases, if◌then◌else◌, Eq, ◌==◌}

module _ {ℓ} {A : Type ℓ} where
  abbrev pub length : List A → ℕ
  length [] = 0
  length (x ∷ xs) = suc (length xs)

  abbrev pub get_elem? : List A → ℕ → Option A
  get_elem? [] i = none
  get_elem? (x ∷ xs) zero = some x
  get_elem? (x ∷ xs) (suc i) = get_elem? xs i

  abbrev pub take : ℕ → List A → List A
  take zero xs = []
  take (suc n) [] = []
  take (suc n) (x ∷ xs) = x ∷ take n xs

  abbrev pub drop : ℕ → List A → List A
  drop zero xs = xs
  drop (suc n) [] = []
  drop (suc n) (x ∷ xs) = drop n xs

  -- `xs[xs.length - 1]`.
  abbrev pub get_last? : List A → Option A
  get_last? [] = none
  get_last? (x ∷ []) = some x
  get_last? (x ∷ y ∷ ys) = get_last? (y ∷ ys)

  -- `xs[i - 1]`, which is `undefined` at `i = 0`.
  abbrev pub get_before? : List A → ℕ → Option A
  get_before? xs zero = none
  get_before? xs (suc i) = get_elem? xs i

  -- `xs.splice(i, 0, v)`; an index past the end appends.
  abbrev pub insert_at : ℕ → A → List A → List A
  insert_at zero v xs = v ∷ xs
  insert_at (suc i) v [] = v ∷ []
  insert_at (suc i) v (x ∷ xs) = x ∷ insert_at i v xs

  abbrev pub filter : (A → Bool) → List A → List A
  filter p [] = []
  filter p (x ∷ xs) = if p x then x ∷ filter p xs else filter p xs

  abbrev pub find : (A → Bool) → List A → Option A
  find p [] = none
  find p (x ∷ xs) = if p x then some x else find p xs

  abbrev pub any : (A → Bool) → List A → Bool
  any p [] = false
  any p (x ∷ xs) = p x || any p xs

  abbrev pub every : (A → Bool) → List A → Bool
  every p [] = true
  every p (x ∷ xs) = p x && every p xs

  -- `xs.findIndex(p)`; `none` is -1.
  abbrev pub find_index : (A → Bool) → List A → Option ℕ
  find_index p [] = none
  find_index p (x ∷ xs) =
      if p x then some 0 else elim (find_index p xs) [ none ↦ none | some i ↦ some (suc i) ]

  -- A predicate on every element.
  abbrev pub All {κ} : (A → Type κ) → List A → Type κ
  All P [] = Unit
  All P (x ∷ xs) = P x × All P xs

module _ {ℓ} {A : Type ℓ} ⦃e : Eq A⦄ where
  abbrev pub includes : List A → A → Bool
  includes [] a = false
  includes (x ∷ xs) a = x == a || includes xs a

  -- `xs.indexOf(a)`; `none` is -1.
  abbrev pub index_of : List A → A → Option ℕ
  index_of xs a = find_index (λ x. x == a) xs

  -- No element twice.
  abbrev pub IsDistinct : List A → Type 0
  IsDistinct [] = Unit
  IsDistinct (x ∷ xs) = (includes xs x ≡ false) × IsDistinct xs

module _ {ℓ} {A : Type ℓ} where
  pub length-append : (xs ys : List A) → length (xs ++ ys) ≡ length xs + length ys
  length-append [] ys = omega arith
  length-append (x ∷ xs) ys = omega (arith, length-append xs ys)

  pub filter-append :
      (p : A → Bool) (xs ys : List A) → filter p (xs ++ ys) ≡ filter p xs ++ filter p ys
  filter-append p [] ys = refl
  filter-append p (x ∷ xs) ys = ground (arith, filter-append p xs ys)

  pub any-append : (p : A → Bool) (xs ys : List A) → any p (xs ++ ys) ≡ (any p xs || any p ys)
  any-append p [] ys = refl
  any-append p (x ∷ xs) ys = ground (arith, any-append p xs ys)

  pub any-filter : (p : A → Bool) (xs : List A) → any p (filter p xs) ≡ any p xs
  any-filter p [] = refl
  any-filter p (x ∷ xs) = ground (arith, any-filter p xs)

  pub length-eq-zero : (xs : List A) → length xs ≡ 0 → xs ≡ []
  length-eq-zero [] h = refl
  length-eq-zero (x ∷ xs) h = absurd (omega (arith, h))

  pub append-take-drop : (n : ℕ) (xs : List A) → take n xs ++ drop n xs ≡ xs
  append-take-drop zero xs = refl
  append-take-drop (suc n) [] = refl
  append-take-drop (suc n) (x ∷ xs) = ap (λ ys. x ∷ ys) (append-take-drop n xs)

  pub length-take_le : (n : ℕ) (xs : List A) → length (take n xs) ≤ n
  length-take_le zero xs = omega arith
  length-take_le (suc n) [] = omega arith
  length-take_le (suc n) (x ∷ xs) = omega (arith, length-take_le n xs)

  pub find-true : (p : A → Bool) (xs : List A) (a : A) → find p xs ≡ some a → p a ≡ true
  find-true p [] a h = cc
  find-true p (x ∷ xs) a h = ground (arith, find-true p xs a)

module _ {ℓ κ} {A : Type ℓ} (P : A → Type κ) where
  pub All-append : (xs ys : List A) → All P xs → All P ys → All P (xs ++ ys)
  All-append [] ys h k = k
  All-append (x ∷ xs) ys (p, h) k = (p, All-append xs ys h k)

  pub All-append_left : (xs ys : List A) → All P (xs ++ ys) → All P xs
  All-append_left [] ys h = tt
  All-append_left (x ∷ xs) ys (p, h) = (p, All-append_left xs ys h)

  pub All-append_right : (xs ys : List A) → All P (xs ++ ys) → All P ys
  All-append_right [] ys h = h
  All-append_right (x ∷ xs) ys (p, h) = All-append_right xs ys h

  pub All-drop : (n : ℕ) (xs : List A) → All P xs → All P (drop n xs)
  All-drop zero xs h = h
  All-drop (suc n) [] h = tt
  All-drop (suc n) (x ∷ xs) (p, h) = All-drop n xs h

  pub All-filter : (p : A → Bool) (xs : List A) → All P xs → All P (filter p xs)
  All-filter p [] h = tt
  All-filter p (x ∷ xs) (q, h) = ground (arith, All-filter p xs h)

module _ {ℓ κ} {A : Type ℓ} (P : A → Type κ) where
  pub All-find : (p : A → Bool) (xs : List A) (a : A) → find p xs ≡ some a → All P xs → P a
  All-find p [] a e h = cc
  All-find p (x ∷ xs) a e (q, h) = elim (Bool-cases (p x)) [
    | inl t ↦ let r : x ≡ a = ground arith in subst P r q
    | inr f ↦ All-find p xs a (ground arith) h
  ]

module _ {ℓ κ μ ν} {A : Type ℓ} {B : Type κ} (P : A → Type μ) (Q : B → Type ν) where
  pub All-map : (f : A → B) (xs : List A) → ((x : A) → P x → Q (f x)) → All P xs → All Q (map f xs)
  All-map f [] h k = tt
  All-map f (x ∷ xs) h (p, k) = (h x p, All-map f xs h k)

module _ {ℓ μ ν} {A : Type ℓ} (P : A → Type μ) (Q : A → Type ν) where
  pub All-weaken : ((x : A) → P x → Q x) → (xs : List A) → All P xs → All Q xs
  All-weaken h [] k = tt
  All-weaken h (x ∷ xs) (p, k) = (h x p, All-weaken h xs k)

-- A predicate on every element, by the elements.
module _ {ℓ κ} {A : Type ℓ} (P : A → Type κ) where
  pub All-members : (xs : List A) → ((x : A) → Memᴰ x xs → P x) → All P xs
  All-members [] h = tt
  All-members (x ∷ xs) h = (h x (Memᴰ.head refl), All-members xs (λ y m. h y (Memᴰ.tail m)))

  pub All-member : (xs : List A) (x : A) → All P xs → Memᴰ x xs → P x
  All-member [] x h m = elim m [ ]
  All-member (y ∷ xs) x (p, h) (Memᴰ.head e) = subst P (sym e) p
  All-member (y ∷ xs) x (p, h) (Memᴰ.tail m) = All-member xs x h m

module _ {ℓ} {A : Type ℓ} ⦃e : Eq A⦄ where
  pub includes-member : (xs : List A) {x : A} → Memᴰ x xs → includes xs x ≡ true
  includes-member [] m = elim m [ ]
  includes-member (y ∷ xs) {x} (Memᴰ.head q) = ground (arith, e.test_iff y x, q)
  includes-member (y ∷ xs) {x} (Memᴰ.tail m) = ground (arith, includes-member xs m)
