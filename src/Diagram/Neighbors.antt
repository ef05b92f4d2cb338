-- ===== src/Diagram/Neighbors.antt =====
-- The adjacency lists that the search builds, against the relationships themselves.
use mathlib.Core.List.{Memᴰ}
use sqlwarden.Diagram.{ref_key, link, link_edges}
use sqlwarden.Api.{ObjectRef, Relationship}
use sqlwarden.Common.{
  Bool, true, false, List, [], ◌∷◌, ◌++◌, String, ◌==◌, string_eq, if◌then◌else◌, lookup, Dict,
  get_or_else, ◌≡◌, refl, lookup-insert, eq_iff, sym, append-nil, append_assoc, Bool-cases, inl,
  inr, All, All-append, ap, All-append_left, subst, All-append_right, ◌∙◌,
}

module _ {ℓ κ} {A : Type ℓ} (P : A → Type κ) {a : A} where
  All-when : (b : Bool) → (b ≡ true → P a) → All P (if b then a ∷ [] else [])
  All-when true h = (h refl, tt)
  All-when false h = tt

  when-All : (b : Bool) → b ≡ true → All P (if b then a ∷ [] else []) → P a
  when-All true e h = h.0
  when-All false e h = cc

module _ (encode : String → String) where
  abbrev along : Relationship → String → List ObjectRef
  along e k = if ref_key encode e.source == k then e.references ∷ [] else []

  abbrev back : Relationship → String → List ObjectRef
  back e k = if ref_key encode e.references == k then e.source ∷ [] else []

  -- The tables next to a key, by the relationships.
  unfoldable pub neighbors : List Relationship → String → List ObjectRef
  neighbors [] k = []
  neighbors (e ∷ es) k = along e k ++ (back e k ++ neighbors es k)

  lookup-link :
      (a b : ObjectRef) (adj : Dict String (List ObjectRef)) (k : String)
      → get_or_else (lookup k (link encode a b adj)) []
        ≡ (get_or_else (lookup k adj) [] ++ (if ref_key encode a == k then b ∷ [] else []))
  unfolding link
  lookup-link a b adj k = elim (Bool-cases (ref_key encode a == k)) [
    | inl e ↦ let same : ref_key encode a ≡ k = (eq_iff _ _).0 e in rw (lookup-insert, e, same) refl
    | inr e ↦ rw (lookup-insert, e, append-nil) refl
  ]

  pub lookup-link_edges :
      (es : List Relationship) (adj : Dict String (List ObjectRef)) (k : String)
      → get_or_else (lookup k (link_edges encode es adj)) []
        ≡ (get_or_else (lookup k adj) [] ++ neighbors es k)
  unfolding link_edges neighbors
  lookup-link_edges [] adj k = rw append-nil refl
  lookup-link_edges (e ∷ es) adj k =
      rw
        (
          lookup-link_edges es,
          lookup-link e.references,
          lookup-link e.source,
          append_assoc,
          append_assoc,
        )
        refl

  -- What holds at the ends of the relationships that touch a key holds of its neighbors.
  pub All-neighbors :
      (P : ObjectRef → Type 0) (es : List Relationship) (k : String)
      → ((e : Relationship) → Memᴰ e es → ref_key encode e.source ≡ k → P e.references)
      → ((e : Relationship) → Memᴰ e es → ref_key encode e.references ≡ k → P e.source)
      → All P (neighbors es k)
  unfolding neighbors
  All-neighbors P [] k to from = tt
  All-neighbors P (e ∷ es) k to from =
      let rest = All-neighbors P es k (λ d m. to d (Memᴰ.tail m)) (λ d m. from d (Memᴰ.tail m)) in
      All-append P (along e k) (back e k ++ neighbors es k)
        (All-when P _ (λ t. to e (Memᴰ.head refl) ((eq_iff _ _).0 t)))
        (All-append P (back e k) (neighbors es k)
          (All-when P _ (λ t. from e (Memᴰ.head refl) ((eq_iff _ _).0 t))) rest)

  -- The part of the neighbors that one relationship gives, and the part that the others give.
  All-first :
      (P : ObjectRef → Type 0) (e : Relationship) (es : List Relationship) (k : String)
      → All P (neighbors (e ∷ es) k)
      → All P (along e k) × All P (back e k) × All P (neighbors es k)
  unfolding neighbors
  All-first P e es k h =
      let rest = All-append_right P (along e k) (back e k ++ neighbors es k) h in
      (
        All-append_left P (along e k) (back e k ++ neighbors es k) h,
        All-append_left P (back e k) (neighbors es k) rest,
        All-append_right P (back e k) (neighbors es k) rest,
      )

  pub All-neighbors_along :
      (P : ObjectRef → Type 0) (es : List Relationship) (e : Relationship) (k : String)
      → Memᴰ e es
      → ref_key encode e.source ≡ k
      → All P (neighbors es k)
      → P e.references
  All-neighbors_along P [] e k m q h = elim m [ ]
  All-neighbors_along P (d ∷ es) e k (Memᴰ.head p) q h =
      let here = (eq_iff _ _).1 (ap (λ r. ref_key encode r.source) (sym p) ∙ q) in
      subst (λ r. P r.references) (sym p) (when-All P _ here (All-first P d es k h).0)
  All-neighbors_along P (d ∷ es) e k (Memᴰ.tail m) q h =
      All-neighbors_along P es e k m q (All-first P d es k h).2

  pub All-neighbors_back :
      (P : ObjectRef → Type 0) (es : List Relationship) (e : Relationship) (k : String)
      → Memᴰ e es
      → ref_key encode e.references ≡ k
      → All P (neighbors es k)
      → P e.source
  All-neighbors_back P [] e k m q h = elim m [ ]
  All-neighbors_back P (d ∷ es) e k (Memᴰ.head p) q h =
      let here = (eq_iff _ _).1 (ap (λ r. ref_key encode r.references) (sym p) ∙ q) in
      subst (λ r. P r.source) (sym p) (when-All P _ here (All-first P d es k h).1)
  All-neighbors_back P (d ∷ es) e k (Memᴰ.tail m) q h =
      All-neighbors_back P es e k m q (All-first P d es k h).2
