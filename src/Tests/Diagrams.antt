-- ===== src/Tests/Diagrams.antt =====
-- The search and the seed of a diagram.
use sqlwarden.Diagram.Ranking.{IsLargest, plan_scope_seed-IsLargest}
use sqlwarden.Diagram.Walks.Component.{reachable_refs-returns, reachable_refs-component}
use sqlwarden.Diagram.Walks.{Walk, IsWithin}
use sqlwarden.Diagram.{
  reachable_refs, search_result, search_loop, search_fuel, find_seeds, find_ref, link_edges, link,
  expand, visit, is_too_deep, ref_key, plan_scope_seed,
}
use sqlwarden.Scope.{scope_key}
use sqlwarden.Api.{ObjectRef, Relationship}
use sqlwarden.Common.{
  String, [], ◌∷◌, List, some, ◌≡◌, refl, ◌↔◌, any, ◌==◌, string_eq, true, ℕ, length, ◌≤◌, max, All,
  arith, lookup, insert,
}

abbrev same : String → String
same s = s

abbrev table : String → ObjectRef
table name = record { scope = []; kind = "table"; name = name }

abbrev refers : String → String → Relationship
refers from to = record {
  name = "";
  source = table from;
  columns = [];
  references = table to;
  referenced_columns = [];
}

-- `lines` refers to `orders` and to `items`; `users` stands alone.
abbrev relationships : List Relationship
relationships = refers "lines" "orders" ∷ refers "lines" "items" ∷ []

reachable_refs-returns_example :
    (refs : List ObjectRef) × (reachable_refs same (table "orders" ∷ []) relationships 2 (some 1)
      ≡ some refs)
    × (length refs ≤ max 2 1)
    × All
        (λ ref.
          (n : ℕ) × IsWithin (some 1) n
          × Walk same relationships (table "orders" ∷ []) n (ref_key same ref))
        refs
reachable_refs-returns_example =
    reachable_refs-returns same relationships (table "orders" ∷ []) 2 (some 1)

reachable_refs-component_example :
    (any
        (λ ref. ref_key same ref == " table items")
        (table "orders" ∷ table "lines" ∷ table "items" ∷ [])
      ≡ true)
    ↔ ((n : ℕ) × Walk same relationships (table "orders" ∷ []) n " table items")
unfolding reachable_refs search_result search_loop search_fuel find_seeds find_ref link_edges link
    expand visit is_too_deep ref_key scope_key lookup insert
reachable_refs-component_example =
    reachable_refs-component same relationships (table "orders" ∷ []) 60
      (table "orders" ∷ table "lines" ∷ table "items" ∷ []) " table items" refl (omega arith)

plan_scope_seed-IsLargest_example :
    (left : List ObjectRef) × IsLargest same
      (table "users" ∷ table "lines" ∷ [])
      relationships
      1
      (plan_scope_seed same (table "users" ∷ table "lines" ∷ []) relationships 1)
      left
plan_scope_seed-IsLargest_example =
    plan_scope_seed-IsLargest same (table "users" ∷ table "lines" ∷ []) relationships 1
