-- ===== src/Diagram/Walks/Loop.antt =====
-- The outer loop of the search: it ends, and what its rounds keep holds at the end.
use sqlwarden.Diagram.Visits.{Grows, Grows-visit, Grows-refl, length-visit}
use sqlwarden.Diagram.Neighbors.{neighbors, lookup-link_edges}
use sqlwarden.Diagram.{
  ref_key, link_edges, visit, expand, is_too_deep, search_loop, search_fuel, Found,
}
use sqlwarden.Api.{ObjectRef, Relationship}
use sqlwarden.Common.{
  ℕ, zero, suc, true, List, [], ◌∷◌, String, if◌then◌else◌, Dict, arith, ◌≡◌, refl, Bool-cases, inl,
  inr, length, ltb, ◌+◌, ◌≤◌, ◌<◌, ◌⊎◌, Option, some, if_both, lookup, ◌∙◌, subst, sym,
}

module _ (encode : String → String) (edges : List Relationship) (max_tables : ℕ)
    (max_depth : Option ℕ) where
  -- A round, with the neighbors of the table that left the queue.
  abbrev pub round : ObjectRef → ℕ → Found → Found
  round ref depth found =
      if is_too_deep max_depth depth
      then found
      else visit encode max_tables (depth + 1) (neighbors encode edges (ref_key encode ref)) found

  expand-round :
      (ref : ObjectRef) (depth : ℕ) (found : Found)
      → expand encode (link_edges encode edges []) max_tables max_depth ref depth found
        ≡ round ref depth found
  unfolding expand lookup
  expand-round ref depth found = rw (lookup-link_edges encode edges [] (ref_key encode ref)) refl

  abbrev pub loop :
      ℕ → Dict String ObjectRef → List (ObjectRef × ℕ) → Option (Dict String ObjectRef)
  loop fuel result queue =
      search_loop encode fuel (link_edges encode edges []) max_tables max_depth result queue

  pub Grows-round : (ref : ObjectRef) (depth : ℕ) (f : Found) → Grows encode f (round ref depth f)
  Grows-round ref depth f =
      if_both (Grows encode f) _ (Grows-refl encode f) (Grows-visit encode _ _ _ f)

  pub length-round :
      (ref : ObjectRef) (depth : ℕ) (f : Found)
      → length f.0 ≤ max_tables
      → length (round ref depth f).0 ≤ max_tables
  length-round ref depth f h =
      if_both (λ (g : Found). length g.0 ≤ max_tables) _ h (length-visit encode _ _ _ f h)

  loop-round :
      (fuel : ℕ) (result : Dict String ObjectRef) (ref : ObjectRef) (depth : ℕ)
      (queue : List (ObjectRef × ℕ))
      → length result < max_tables
      → loop (suc fuel) result ((ref, depth) ∷ queue)
        ≡ loop fuel (round ref depth (result, queue)).0 (round ref depth (result, queue)).1
  unfolding search_loop
  loop-round fuel result ref depth queue h =
      let open_guard : ltb (length result) max_tables ≡ true = ground arith in
      rw (open_guard, expand-round ref depth (result, queue)) refl

  pub loop_ends :
      (fuel : ℕ) (f : Found)
      → search_fuel max_tables f ≤ fuel
      → (result : Dict String ObjectRef) × (loop fuel f.0 f.1 ≡ some result)
  unfolding search_fuel search_loop
  loop_ends fuel (result, []) h = (result, refl)
  loop_ends zero (result, item ∷ queue) h = (result, ground arith)
  loop_ends (suc fuel) (result, (ref, depth) ∷ queue) h =
      elim (Bool-cases (ltb (length result) max_tables)) [
        | inl t ↦
            let next = round ref depth (result, queue) in
            let grown = Grows-round ref depth (result, queue) in
            let small = length-round ref depth (result, queue) (ground arith) in
            let (out, e) = loop_ends fuel next (omega (arith, grown.level, small)) in
            (out, loop-round fuel result ref depth queue (ground arith) ∙ e)
        | inr t ↦ (result, rw t refl)
      ]

  -- What a round keeps holds at the end, where the queue is empty or the bound is reached.
  pub loop_rule :
      (P : Found → Type 0)
      → ((ref : ObjectRef) (depth : ℕ) (result : Dict String ObjectRef)
            (queue : List (ObjectRef × ℕ))
          → length result < max_tables
          → P (result, (ref, depth) ∷ queue)
          → P (round ref depth (result, queue)))
      → (fuel : ℕ) (f : Found) (result : Dict String ObjectRef) → P f
      → loop fuel f.0 f.1 ≡ some result
      → (queue : List (ObjectRef × ℕ)) × P (result, queue)
        × ((queue ≡ []) ⊎ (max_tables ≤ length result))
  unfolding search_loop
  loop_rule P keep fuel (r, []) result p h =
      let same : r ≡ result = cc in ([], subst (λ x. P (x, [])) same p, inl refl)
  loop_rule P keep zero (r, item ∷ queue) result p h =
      let same : r ≡ result = ground arith in
      (item ∷ queue, subst (λ x. P (x, item ∷ queue)) same p, inr (ground arith))
  loop_rule P keep (suc fuel) (r, (ref, depth) ∷ queue) result p h =
      elim (Bool-cases (ltb (length r) max_tables)) [
        | inl t ↦
            loop_rule P keep fuel (round ref depth (r, queue)) result
              (keep ref depth r queue (ground arith) p)
              (sym (loop-round fuel r ref depth queue (ground arith)) ∙ h)
        | inr t ↦
            let same : r ≡ result = ground arith in
            (
              (ref, depth) ∷ queue,
              subst (λ x. P (x, (ref, depth) ∷ queue)) same p,
              inr (ground arith),
            )
      ]
