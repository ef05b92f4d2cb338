-- ===== src/Diagram/Walks/Rounds.antt =====
-- What the rounds of the search keep.
use mathlib.Core.Bool.{false≢true}
use sqlwarden.Diagram.Walks.Loop.{round}
use sqlwarden.Diagram.Walks.{Walk, IsWithin}
use sqlwarden.Diagram.Visits.{
  has, waits, Holds, Holds-visit, Holds-find_seeds, Grows-visit, Grows-find_seeds, visit-All,
}
use sqlwarden.Diagram.Neighbors.{neighbors, All-neighbors}
use sqlwarden.Diagram.{ref_key, visit, is_too_deep, find_seeds, Found}
use sqlwarden.Api.{ObjectRef, Relationship}
use sqlwarden.Common.{
  lookup, ℕ, suc, true, false, List, [], ◌∷◌, String, Dict, arith, ◌≡◌, refl, Bool-cases, inl, inr,
  length, ◌+◌, ◌≤◌, ◌<◌, ◌⊎◌, Option, none, some, map, All, any, ◌==◌, string_eq, subst, All-weaken,
  ap, eq_iff, ◌∙◌, All-members,
}

pub length-values :
    (result : Dict String ObjectRef) → length (map (λ entry. entry.1) result) ≡ length result
length-values [] = refl
length-values (entry ∷ result) = ap suc (length-values result)

module _ (encode : String → String) (edges : List Relationship) (seeds : List ObjectRef)
    (max_tables : ℕ) (max_depth : Option ℕ) where
  -- A table that was found stands under its own key, at the end of a walk within the bound.
  abbrev pub IsFound : String × ObjectRef → Type 0
  IsFound (k, ref) =
      (k ≡ ref_key encode ref) × ((n : ℕ) × IsWithin max_depth n × Walk encode edges seeds n k)

  -- A table that waits ends a walk of its depth.
  abbrev pub IsQueued : ObjectRef × ℕ → Type 0
  IsQueued (ref, depth) =
      IsWithin max_depth depth × Walk encode edges seeds depth (ref_key encode ref)

  abbrev pub IsSound : Found → Type 0
  IsSound f = Holds encode IsFound IsQueued f

  -- A step from a table that waits, unless that is too deep.
  pub IsWithin-suc :
      (depth : ℕ) (bound : Option ℕ) → is_too_deep bound depth ≡ false → IsWithin bound (depth + 1)
  unfolding is_too_deep
  IsWithin-suc depth none h = tt
  IsWithin-suc depth (some m) h = ground arith

  pub IsWithin-zero : (bound : Option ℕ) → IsWithin bound 0
  IsWithin-zero none = tt
  IsWithin-zero (some m) = omega arith

  pub IsSound-round :
      (ref : ObjectRef) (depth : ℕ) (result : Dict String ObjectRef) (queue : List (ObjectRef × ℕ))
      → length result < max_tables
      → IsSound (result, (ref, depth) ∷ queue)
      → IsSound (round encode edges max_tables max_depth ref depth (result, queue))
  IsSound-round ref depth result queue h (entries, ((within, walk), items)) =
      elim (Bool-cases (is_too_deep max_depth depth)) [
        | inl t ↦ rw t (entries, items)
        | inr t ↦
            let near = IsWithin-suc depth max_depth t in
            rw t (
              Holds-visit encode IsFound IsQueued max_tables (depth + 1) _ _
                (All-neighbors encode _ edges (ref_key encode ref)
                  (λ e m q.
                    let w = Walk.along e walk m q in ((refl, (depth + 1, near, w)), (near, w)))
                  (λ e m q.
                    let w = Walk.back e walk m q in ((refl, (depth + 1, near, w)), (near, w))))
                (entries, items))
      ]

  pub IsSound-start : IsSound (find_seeds encode seeds ([], []))
  IsSound-start =
      Holds-find_seeds encode IsFound IsQueued seeds ([], [])
        (All-members _ seeds (λ s m. (
          (refl, (0, IsWithin-zero max_depth, Walk.start s m)),
          (IsWithin-zero max_depth, Walk.start s m),
        )))
        (tt, tt)

  -- Unless the bound is reached, a table that was found waits, or all its neighbors are found.
  abbrev pub IsClosed : Found → Type 0
  IsClosed f =
      (max_tables ≤ length f.0)
      ⊎ ((k : String)
          → has f.0 k ≡ true
          → (waits encode f.1 k ≡ true)
            ⊎ All (λ nb. has f.0 (ref_key encode nb) ≡ true) (neighbors encode edges k))

  pub IsClosed-start : IsClosed (find_seeds encode seeds ([], []))
  unfolding lookup
  IsClosed-start = inr (λ k h. inl ((Grows-find_seeds encode seeds ([], [])).added k h refl))

  pub IsClosed-visit :
      (ref : ObjectRef) (depth : ℕ) (result : Dict String ObjectRef) (queue : List (ObjectRef × ℕ))
      → IsClosed (result, (ref, depth) ∷ queue)
      → IsClosed (
          visit encode max_tables
            (depth + 1)
            (neighbors encode edges (ref_key encode ref))
            (result, queue))
  IsClosed-visit ref depth result queue closed =
      let nbs = neighbors encode edges (ref_key encode ref) in
      let next = visit encode max_tables (depth + 1) nbs (result, queue) in
      let grown = Grows-visit encode max_tables (depth + 1) nbs (result, queue) in
      elim (visit-All encode max_tables (depth + 1) nbs (result, queue)) [
        | inl full ↦ inl full
        | inr all ↦ elim closed [
          | inl full ↦ inl (omega (arith, full, grown.more))
          | inr old ↦ inr (λ k h. elim (Bool-cases (has result k)) [
            | inr new ↦ inl (grown.added k h new)
            | inl t ↦ elim (old k t) [
              | inr there ↦ inr (All-weaken _ _ (λ nb q. grown.kept _ q) _ there)
              | inl w ↦ elim (Bool-cases (ref_key encode ref == k)) [
                | inl e ↦ inr (
                    subst
                      (λ j.
                        All (λ nb. has next.0 (ref_key encode nb) ≡ true)
                          (neighbors encode edges j))
                      ((eq_iff _ _).0 e) all)
                | inr e ↦ inl (grown.waiting k (ground arith))
              ]
            ]
          ])
        ]
      ]

  pub walk_of_any :
      (result : Dict String ObjectRef) (k : String)
      → All IsFound result
      → any (λ ref. ref_key encode ref == k) (map (λ entry. entry.1) result) ≡ true
      → (n : ℕ) × IsWithin max_depth n × Walk encode edges seeds n k
  walk_of_any [] k h e = absurd (false≢true e)
  walk_of_any ((j, ref) ∷ result) k ((q, walk), h) e = elim (Bool-cases (ref_key encode ref == k)) [
    | inl t ↦
        subst (λ i. (n : ℕ) × IsWithin max_depth n × Walk encode edges seeds n i)
          (q ∙ (eq_iff _ _).0 t) walk
    | inr t ↦ walk_of_any result k h (ground arith)
  ]

  -- The keys of the result are those of the tables in it.
  pub any-has :
      (result : Dict String ObjectRef) (k : String)
      → All IsFound result
      → any (λ ref. ref_key encode ref == k) (map (λ entry. entry.1) result) ≡ has result k
  unfolding lookup
  any-has [] k h = refl
  any-has ((j, ref) ∷ result) k ((q, _), h) = ground (arith, any-has result k h)
