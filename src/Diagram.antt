-- ===== src/Diagram.antt =====
-- frontend/src/components/ide/schema-diagram/diagramModel.ts: which tables a diagram shows.
-- Tables are compared by their keys; a `Map` is a dictionary in the order of insertion.
-- `encode` stands for `encodeURIComponent`.
pub mod Neighbors
pub mod Visits
pub mod Ranking
pub mod Nodes
pub mod Walks
use sqlwarden.Scope.{scope_key}
use sqlwarden.Api.{ObjectRef, Relationship}
use sqlwarden.Common.{
  ℕ, suc, zero, Bool, true, false, List, [], ◌∷◌, ◌++◌, map, Option, none, some, String, ◌<>◌, ◌==◌,
  string_eq, if◌then◌else◌, lookup, insert, Dict, includes, length, ltb, leb, ◌+◌, ◌-◌, take,
  get_or_else, is_some, ◌||◌,
}

abbrev pub diagram_max_tables : ℕ
diagram_max_tables = 60

abbrev pub diagram_max_columns : ℕ
diagram_max_columns = 1500

-- The tables that were found, and the queue of those to go on from with their depths.
abbrev pub Found : Type 0
Found = Dict String ObjectRef × List (ObjectRef × ℕ)

-- `depth >= maxDepth`, where no bound is `Infinity`.
unfoldable pub is_too_deep : Option ℕ → ℕ → Bool
is_too_deep none depth = false
is_too_deep (some max_depth) depth = leb max_depth depth

-- Every round takes one table off the queue, and puts on it only those it adds to the result.
unfoldable pub search_fuel : ℕ → Found → ℕ
search_fuel max_tables (result, queue) = (max_tables - length result) + length queue

module _ (encode : String → String) where
  unfoldable pub ref_key : ObjectRef → String
  ref_key ref = scope_key encode ref.scope <> " " <> ref.kind <> " " <> ref.name

  -- The table at the other end of a relationship that touches the key.
  unfoldable pub other_end : String → Relationship → Option ObjectRef
  other_end self e =
      if ref_key e.source == self
      then some e.references
      else if ref_key e.references == self
      then some e.source
      else none

  unfoldable pub add_neighbor :
      String → List String → Relationship → Dict String ObjectRef → Dict String ObjectRef
  add_neighbor self present e out = elim (other_end self e) [
    | none ↦ out
    | some other ↦
        if ref_key other == self || includes present (ref_key other)
        then out
        else insert (ref_key other) other out
  ]

  unfoldable pub collect_neighbors :
      String → List String → List Relationship → Dict String ObjectRef → Dict String ObjectRef
  collect_neighbors self present [] out = out
  collect_neighbors self present (e ∷ edges) out =
      collect_neighbors self present edges (add_neighbor self present e out)

  -- `present` is the set of the keys on the canvas.
  unfoldable pub hidden_neighbors : ObjectRef → List Relationship → List String → List ObjectRef
  hidden_neighbors ref edges present =
      map (λ entry. entry.1) (collect_neighbors (ref_key ref) present edges [])

  unfoldable pub count_end : ObjectRef → Dict String ℕ → Dict String ℕ
  count_end ref degree =
      insert (ref_key ref) (get_or_else (lookup (ref_key ref) degree) 0 + 1) degree

  unfoldable pub count_degrees : List Relationship → Dict String ℕ → Dict String ℕ
  count_degrees [] degree = degree
  count_degrees (e ∷ edges) degree =
      count_degrees edges (count_end e.references (count_end e.source degree))

  unfoldable pub degree_of : Dict String ℕ → ObjectRef → ℕ
  degree_of degree ref = get_or_else (lookup (ref_key ref) degree) 0

  -- `Array.prototype.sort` keeps the order of equal elements.
  unfoldable pub place_by_degree : Dict String ℕ → ObjectRef → List ObjectRef → List ObjectRef
  place_by_degree degree ref [] = ref ∷ []
  place_by_degree degree ref (other ∷ refs) =
      if ltb (degree_of degree ref) (degree_of degree other)
      then other ∷ place_by_degree degree ref refs
      else ref ∷ other ∷ refs

  unfoldable pub sort_by_degree : Dict String ℕ → List ObjectRef → List ObjectRef
  sort_by_degree degree [] = []
  sort_by_degree degree (ref ∷ refs) = place_by_degree degree ref (sort_by_degree degree refs)

  unfoldable pub rank_by_degree : List ObjectRef → List Relationship → List ObjectRef
  rank_by_degree refs edges = sort_by_degree (count_degrees edges []) refs

  unfoldable pub link :
      ObjectRef → ObjectRef → Dict String (List ObjectRef) → Dict String (List ObjectRef)
  link a b adj = insert (ref_key a) (get_or_else (lookup (ref_key a) adj) [] ++ b ∷ []) adj

  unfoldable pub link_edges :
      List Relationship → Dict String (List ObjectRef) → Dict String (List ObjectRef)
  link_edges [] adj = adj
  link_edges (e ∷ edges) adj =
      link_edges edges (link e.references e.source (link e.source e.references adj))

  unfoldable pub find_ref : ℕ → ObjectRef → Found → Found
  find_ref depth ref (result, queue) =
      if is_some (lookup (ref_key ref) result)
      then (result, queue)
      else (insert (ref_key ref) ref result, queue ++ (ref, depth) ∷ [])

  unfoldable pub find_seeds : List ObjectRef → Found → Found
  find_seeds [] found = found
  find_seeds (s ∷ seeds) found = find_seeds seeds (find_ref 0 s found)

  -- The inner loop, which breaks at the bound.
  unfoldable pub visit : ℕ → ℕ → List ObjectRef → Found → Found
  visit max_tables depth [] found = found
  visit max_tables depth (nb ∷ nbs) found =
      let rest = visit max_tables depth nbs (find_ref depth nb found) in
      if leb max_tables (length found.0) then found else rest

  unfoldable pub expand :
      Dict String (List ObjectRef) → ℕ → Option ℕ → ObjectRef → ℕ → Found → Found
  expand adj max_tables max_depth ref depth found =
      if is_too_deep max_depth depth
      then found
      else visit max_tables (depth + 1) (get_or_else (lookup (ref_key ref) adj) []) found

  -- The outer loop on fuel; `none` is out of fuel.
  unfoldable pub search_loop :
      ℕ
      → Dict String (List ObjectRef)
      → ℕ
      → Option ℕ
      → Dict String ObjectRef
      → List (ObjectRef × ℕ)
      → Option (Dict String ObjectRef)
  search_loop fuel adj max_tables max_depth result [] = some result
  search_loop zero adj max_tables max_depth result (item ∷ queue) =
      if ltb (length result) max_tables then none else some result
  search_loop (suc fuel) adj max_tables max_depth result ((ref, depth) ∷ queue) =
      let next = expand adj max_tables max_depth ref depth (result, queue) in
      let rest = search_loop fuel adj max_tables max_depth next.0 next.1 in
      if ltb (length result) max_tables then rest else some result

  unfoldable pub search_result :
      List ObjectRef → List Relationship → ℕ → Option ℕ → Option (Dict String ObjectRef)
  search_result seeds edges max_tables max_depth =
      let found = find_seeds seeds ([], []) in
      search_loop (search_fuel max_tables found) (link_edges edges []) max_tables max_depth found.0
        found.1

  unfoldable pub reachable_refs :
      List ObjectRef → List Relationship → ℕ → Option ℕ → Option (List ObjectRef)
  reachable_refs seeds edges max_tables max_depth =
      elim (search_result seeds edges max_tables max_depth) [
        | none ↦ none
        | some result ↦ some (map (λ entry. entry.1) result)
      ]

  -- The seed, and whether the diagram is progressive.
  unfoldable pub plan_scope_seed : List ObjectRef → List Relationship → ℕ → List ObjectRef × Bool
  plan_scope_seed table_refs edges max_tables =
      if leb (length table_refs) max_tables
      then (table_refs, false)
      else (take max_tables (rank_by_degree table_refs edges), true)
