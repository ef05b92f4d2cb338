-- ===== src/Diagram/Walks/Component.antt =====
-- The tables that the search finds are those that walks reach.
use sqlwarden.Diagram.Walks.Rounds.{
  length-values, IsClosed, IsFound, walk_of_any, IsClosed-visit, IsSound, any-has, IsClosed-start,
  IsSound-round, IsSound-start,
}
use mathlib.Core.Bool.{false≢true}
use sqlwarden.Diagram.Walks.Loop.{loop_ends, loop_rule, Grows-round, length-round}
use sqlwarden.Diagram.Walks.{Walk, IsWithin}
use sqlwarden.Diagram.Visits.{has, waits, has-find_seeds, length-find_seeds}
use sqlwarden.Diagram.Neighbors.{neighbors, All-neighbors_along, All-neighbors_back}
use sqlwarden.Diagram.{ref_key, is_too_deep, find_seeds, search_result, reachable_refs}
use sqlwarden.Api.{ObjectRef, Relationship}
use sqlwarden.Common.{
  ℕ, true, List, [], String, Dict, arith, ◌≡◌, refl, inl, inr, length, ◌≤◌, ◌<◌, Option, none, some,
  map, All, any, ◌==◌, string_eq, subst, sym, All-weaken, ap, ◌∙◌, ◌↔◌, max, All-map, All-member,
}

module _ (encode : String → String) (edges : List Relationship) (seeds : List ObjectRef)
    (max_tables : ℕ) where
  reachable_refs-search_result :
      (max_depth : Option ℕ) (result : Dict String ObjectRef)
      → search_result encode seeds edges max_tables max_depth ≡ some result
      → reachable_refs encode seeds edges max_tables max_depth
        ≡ some (map (λ entry. entry.1) result)
  unfolding reachable_refs
  reachable_refs-search_result max_depth result e = rw (reachable_refs, e) refl

  -- The search always returns, whatever the bounds on tables and hops are.
  search_result-ends :
      (max_depth : Option ℕ)
      → (result : Dict String ObjectRef) × (search_result encode seeds edges max_tables max_depth
          ≡ some result)
  unfolding search_result
  search_result-ends max_depth =
      loop_ends encode edges max_tables max_depth _ (find_seeds encode seeds ([], [])) (omega arith)

  search_result-IsFound :
      (max_depth : Option ℕ) (result : Dict String ObjectRef)
      → search_result encode seeds edges max_tables max_depth ≡ some result
      → All (IsFound encode edges seeds max_tables max_depth) result
  unfolding search_result
  search_result-IsFound max_depth result e =
      let (queue, sound, _) =
        loop_rule encode edges max_tables max_depth
          (IsSound encode edges seeds max_tables max_depth)
          (IsSound-round encode edges seeds max_tables max_depth) _
          (find_seeds encode seeds ([], [])) result
          (IsSound-start encode edges seeds max_tables max_depth) e in
      sound.0

  search_result-IsClosed :
      (result : Dict String ObjectRef)
      → search_result encode seeds edges max_tables none ≡ some result
      → length result < max_tables
      → (k : String) → has result k ≡ true
      → All (λ nb. has result (ref_key encode nb) ≡ true) (neighbors encode edges k)
  unfolding search_result is_too_deep
  search_result-IsClosed result e h k t =
      let (queue, closed, ends) =
        loop_rule encode edges max_tables none (IsClosed encode edges seeds max_tables none)
          (λ ref depth r q _ c. IsClosed-visit encode edges seeds max_tables none ref depth r q c) _
          (find_seeds encode seeds ([], [])) result
          (IsClosed-start encode edges seeds max_tables none) e in
      elim closed [
        | inl full ↦ absurd (omega (arith, full, h))
        | inr all ↦ elim ends [
          | inr full ↦ absurd (omega (arith, full, h))
          | inl empty ↦ elim (all k t) [
            | inr found ↦ found
            | inl w ↦ absurd (false≢true (subst (λ q. waits encode q k ≡ true) empty w))
          ]
        ]
      ]

  has-seeds :
      (result : Dict String ObjectRef)
      → search_result encode seeds edges max_tables none ≡ some result
      → All (λ s. has result (ref_key encode s) ≡ true) seeds
  unfolding search_result
  has-seeds result e =
      let (_, all, _) =
        loop_rule encode edges max_tables none
          (λ f. All (λ s. has f.0 (ref_key encode s) ≡ true) seeds)
          (λ ref depth r q _ h.
            All-weaken _ _
              (λ s t. (Grows-round encode edges max_tables none ref depth (r, q)).kept _ t) seeds h)
          _ (find_seeds encode seeds ([], [])) result (has-find_seeds encode seeds ([], [])) e in
      all

  length-search_result :
      (max_depth : Option ℕ) (result : Dict String ObjectRef)
      → search_result encode seeds edges max_tables max_depth ≡ some result
      → length result ≤ max max_tables (length seeds)
  unfolding search_result
  length-search_result max_depth result e =
      let (_, small, _) =
        loop_rule encode edges max_tables max_depth
          (λ f. length f.0 ≤ max max_tables (length seeds))
          (λ ref depth r q h _. omega (
            arith,
            h,
            length-round encode edges max_tables max_depth ref depth (r, q) (omega (arith, h)),
          ))
          _ (find_seeds encode seeds ([], [])) result
          (omega (arith, length-find_seeds encode seeds ([], []))) e in
      small

  has-Walk :
      (result : Dict String ObjectRef)
      → search_result encode seeds edges max_tables none ≡ some result
      → length result < max_tables
      → {n : ℕ} {k : String} → Walk encode edges seeds n k
      → has result k ≡ true
  has-Walk result e h (Walk.start s m) = All-member _ seeds s (has-seeds result e) m
  has-Walk result e h (Walk.along d w m q) =
      All-neighbors_along encode (λ nb. has result (ref_key encode nb) ≡ true) edges d _ m q
        (search_result-IsClosed result e h _ (has-Walk result e h w))
  has-Walk result e h (Walk.back d w m q) =
      All-neighbors_back encode (λ nb. has result (ref_key encode nb) ≡ true) edges d _ m q
        (search_result-IsClosed result e h _ (has-Walk result e h w))

  All-values :
      (max_depth : Option ℕ) (result : Dict String ObjectRef)
      → All (IsFound encode edges seeds max_tables max_depth) result
      → All
          (λ ref. (n : ℕ) × IsWithin max_depth n × Walk encode edges seeds n (ref_key encode ref))
          (map (λ entry. entry.1) result)
  All-values max_depth result h =
      All-map _ _ _ result
        (λ entry (same, walk).
          subst (λ k. (n : ℕ) × IsWithin max_depth n × Walk encode edges seeds n k) same walk)
        h

  -- The search for the tables of a diagram always returns, with no more tables than the bound or than
  -- there are seeds, and every table that it returns is reached from a seed by relationships, in either
  -- direction, within the number of hops that is allowed.
  pub reachable_refs-returns :
      (max_depth : Option ℕ)
      → (refs : List ObjectRef) × (reachable_refs encode seeds edges max_tables max_depth
          ≡ some refs)
        × (length refs ≤ max max_tables (length seeds))
        × All
            (λ ref. (n : ℕ) × IsWithin max_depth n × Walk encode edges seeds n (ref_key encode ref))
            refs
  reachable_refs-returns max_depth =
      let (result, e) = search_result-ends max_depth in
      (
        map (λ entry. entry.1) result,
        reachable_refs-search_result max_depth result e,
        omega (arith, length-values result, length-search_result max_depth result e),
        All-values max_depth result (search_result-IsFound max_depth result e),
      )

  -- Without a bound on hops, and if fewer tables are returned than the bound, the tables that the search
  -- returns are exactly those that relationships connect to a seed.
  pub reachable_refs-component :
      (refs : List ObjectRef) (k : String)
      → reachable_refs encode seeds edges max_tables none ≡ some refs
      → length refs < max_tables
      → (any (λ ref. ref_key encode ref == k) refs ≡ true) ↔ ((n : ℕ) × Walk encode edges seeds n k)
  reachable_refs-component refs k h small =
      let (result, e) = search_result-ends none in
      let same : map (λ entry. entry.1) result ≡ refs =
        let q = sym (reachable_refs-search_result none result e) ∙ h in cc in
      let found = search_result-IsFound none result e in
      subst
        (λ rs.
          (any (λ ref. ref_key encode ref == k) rs ≡ true)
          ↔ ((n : ℕ) × Walk encode edges seeds n k))
        same
        (
          λ t.
              let (n, _, walk) = walk_of_any encode edges seeds max_tables none result k found t in
              (n, walk),
          λ (n, walk).
              any-has encode edges seeds max_tables none result k found
              ∙ has-Walk result e (omega (arith, ap length same, length-values result, small)) walk,
        )
