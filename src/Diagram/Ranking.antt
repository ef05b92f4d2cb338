-- ===== src/Diagram/Ranking.antt =====
-- The most connected tables come first.
use mathlib.Core.List.{Permᴰ}
use mathlib.Core.List.Permᴰ
use sqlwarden.Diagram.{
  ref_key, count_end, count_degrees, degree_of, place_by_degree, sort_by_degree, rank_by_degree,
  plan_scope_seed,
}
use sqlwarden.Diagram.Neighbors.{neighbors}
use sqlwarden.Api.{ObjectRef, Relationship}
use sqlwarden.Common.{
  ℕ, zero, suc, Bool, true, false, List, [], ◌∷◌, ◌++◌, String, if◌then◌else◌, Dict, arith, ◌≡◌,
  refl, Bool-cases, inl, inr, length, ltb, leb, ◌+◌, ◌≤◌, All, ◌==◌, string_eq, take, drop,
  get_or_else, All-weaken, eq_iff, lookup-insert, All-drop, lookup, ◌↔◌, ◌<◌, subst, sym,
  append-nil, append-take-drop, length-take_le, All-members,
}

module _ (encode : String → String) where
  count-end :
      (ref : ObjectRef) (degree : Dict String ℕ) (k : String)
      → get_or_else (lookup k (count_end encode ref degree)) 0
        ≡ get_or_else (lookup k degree) 0 + (if ref_key encode ref == k then 1 else 0)
  unfolding count_end
  count-end ref degree k = elim (Bool-cases (ref_key encode ref == k)) [
    | inl e ↦
        let same : ref_key encode ref ≡ k = (eq_iff _ _).0 e in rw (lookup-insert, e, same) refl
    | inr e ↦ rw (lookup-insert, e) (omega arith)
  ]

  -- The degree of a table is the number of its neighbors.
  lookup-count_degrees :
      (edges : List Relationship) (degree : Dict String ℕ) (k : String)
      → get_or_else (lookup k (count_degrees encode edges degree)) 0
        ≡ get_or_else (lookup k degree) 0 + length (neighbors encode edges k)
  unfolding count_degrees neighbors
  lookup-count_degrees [] degree k = omega arith
  lookup-count_degrees (e ∷ edges) degree k = ground (
    arith,
    lookup-count_degrees edges (count_end encode e.references (count_end encode e.source degree)) k,
    count-end e.references (count_end encode e.source degree) k,
    count-end e.source degree k,
  )

  module _ (degree : Dict String ℕ) where
    abbrev AtMost : ObjectRef → ObjectRef → Type 0
    AtMost a b = degree_of encode degree b ≤ degree_of encode degree a

    -- Every table has at least the degree of those after it.
    abbrev IsRanked : List ObjectRef → Type 0
    IsRanked [] = Unit
    IsRanked (a ∷ refs) = All (AtMost a) refs × IsRanked refs

    All-place_by_degree :
        (P : ObjectRef → Type 0) (ref : ObjectRef) (refs : List ObjectRef)
        → P ref
        → All P refs
        → All P (place_by_degree encode degree ref refs)
    unfolding place_by_degree
    All-place_by_degree P ref [] p h = (p, tt)
    All-place_by_degree P ref (a ∷ refs) p (q, h) =
        elim (Bool-cases (ltb (degree_of encode degree ref) (degree_of encode degree a))) [
          | inl t ↦ rw t (q, All-place_by_degree P ref refs p h)
          | inr t ↦ rw t (p, (q, h))
        ]

    place_by_degree-IsRanked :
        (ref : ObjectRef) (refs : List ObjectRef)
        → IsRanked refs
        → IsRanked (place_by_degree encode degree ref refs)
    unfolding place_by_degree
    place_by_degree-IsRanked ref [] h = (tt, tt)
    place_by_degree-IsRanked ref (a ∷ refs) (q, h) =
        elim (Bool-cases (ltb (degree_of encode degree ref) (degree_of encode degree a))) [
          | inl t ↦ rw t (
            All-place_by_degree (AtMost a) ref refs (ground arith) q,
            place_by_degree-IsRanked ref refs h,
          )
          | inr t ↦
              let more : AtMost ref a = ground arith in
              rw t ((more, All-weaken _ _ (λ b r. omega (arith, more, r)) refs q), (q, h))
        ]

    sort_by_degree-IsRanked : (refs : List ObjectRef) → IsRanked (sort_by_degree encode degree refs)
    unfolding sort_by_degree
    sort_by_degree-IsRanked [] = tt
    sort_by_degree-IsRanked (ref ∷ refs) =
        place_by_degree-IsRanked ref _ (sort_by_degree-IsRanked refs)

    -- Those kept have at least the degree of those left out.
    IsRanked-take :
        (n : ℕ) (refs : List ObjectRef)
        → IsRanked refs
        → All (λ a. All (AtMost a) (drop n refs)) (take n refs)
    IsRanked-take zero refs h = tt
    IsRanked-take (suc n) [] h = tt
    IsRanked-take (suc n) (a ∷ refs) (q, h) = (All-drop (AtMost a) n refs q, IsRanked-take n refs h)

    place_by_degree-Perm :
        (ref : ObjectRef) (refs : List ObjectRef)
        → Permᴰ (place_by_degree encode degree ref refs) (ref ∷ refs)
    unfolding place_by_degree
    place_by_degree-Perm ref [] = Permᴰ.refl _
    place_by_degree-Perm ref (a ∷ refs) =
        elim (Bool-cases (ltb (degree_of encode degree ref) (degree_of encode degree a))) [
          | inl t ↦
              rw t (
                Permᴰ.trans (Permᴰ.cons refl (place_by_degree-Perm ref refs))
                  (Permᴰ.swap refl refl))
          | inr t ↦ rw t (Permᴰ.refl _)
        ]

    sort_by_degree-Perm : (refs : List ObjectRef) → Permᴰ (sort_by_degree encode degree refs) refs
    unfolding sort_by_degree
    sort_by_degree-Perm [] = Permᴰ.nil
    sort_by_degree-Perm (ref ∷ refs) =
        Permᴰ.trans (place_by_degree-Perm ref _) (Permᴰ.cons refl (sort_by_degree-Perm refs))

  -- The number of ends of relationships at the table.
  abbrev pub connections : List Relationship → ObjectRef → ℕ
  connections edges ref = length (neighbors encode edges (ref_key encode ref))

  degree_of-connections :
      (edges : List Relationship) (ref : ObjectRef)
      → degree_of encode (count_degrees encode edges []) ref ≡ connections edges ref
  unfolding degree_of lookup
  degree_of-connections edges ref =
      omega (arith, lookup-count_degrees edges [] (ref_key encode ref))

  -- What is left out of a seed with its mark, of a bound on the tables of a scope.
  abbrev pub IsLargest :
      List ObjectRef → List Relationship → ℕ → List ObjectRef × Bool → List ObjectRef → Type 0
  IsLargest refs edges max_tables (seed, progressive) left =
      Permᴰ (seed ++ left) refs
      × (length seed ≤ max_tables)
      × All (λ a. All (λ b. connections edges b ≤ connections edges a) left) seed
      × ((progressive ≡ true) ↔ (max_tables < length refs))

  -- The seed of a scope's diagram and the tables that are left out are together the tables of the scope.
  -- The seed is no larger than the bound, every table of it has at least as many connections as every
  -- table that is left out, and the diagram is progressive exactly if there are more tables than the
  -- bound.
  pub plan_scope_seed-IsLargest :
      (refs : List ObjectRef) (edges : List Relationship) (max_tables : ℕ)
      → (left : List ObjectRef) × IsLargest refs edges max_tables
          (plan_scope_seed encode refs edges max_tables)
          left
  unfolding plan_scope_seed rank_by_degree
  plan_scope_seed-IsLargest refs edges max_tables =
      let degree = count_degrees encode edges [] in
      let ranked = sort_by_degree encode degree refs in
      let kept = IsRanked-take degree max_tables ranked (sort_by_degree-IsRanked degree refs) in
      elim (Bool-cases (leb (length refs) max_tables)) [
        | inl t ↦
            let within : plan_scope_seed encode refs edges max_tables ≡ (refs, false) = rw t refl in
            let whole : Permᴰ (refs ++ []) refs =
              subst (λ rs. Permᴰ rs refs) (sym (append-nil refs)) (Permᴰ.refl refs) in
            let none_left : All (λ a. All (λ b. connections edges b ≤ connections edges a) [])
                refs =
              All-members _ refs (λ a m. tt) in
            (
              [],
              subst (λ p. IsLargest refs edges max_tables p []) (sym within)
                  (whole, ground arith, none_left, ground arith),
            )
        | inr t ↦
            let above : plan_scope_seed encode refs edges max_tables
                ≡ (take max_tables ranked, true) =
              rw t refl in
            let whole : Permᴰ (take max_tables ranked ++ drop max_tables ranked) refs =
              subst (λ rs. Permᴰ rs refs) (sym (append-take-drop max_tables ranked))
                (sort_by_degree-Perm degree refs) in
            let largest =
              All-weaken (λ a. All (AtMost degree a) (drop max_tables ranked))
                (λ a. All (λ b. connections edges b ≤ connections edges a) (drop max_tables ranked))
                (λ a.
                  All-weaken _ _
                    (λ b h.
                      omega
                        (arith, h, degree_of-connections edges a, degree_of-connections edges b))
                    _)
                _ kept in
            (
              drop max_tables ranked,
              subst (λ p. IsLargest refs edges max_tables p (drop max_tables ranked)) (sym above)
                  (whole, length-take_le max_tables ranked, largest, ground arith),
            )
      ]
