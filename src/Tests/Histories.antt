-- ===== src/Tests/Histories.antt =====
-- A run of a tab that has fifty already.
use sqlwarden.Execution.History.{use_begin_run}
use sqlwarden.Execution.History.Cursors.{Closes, results_of}
use sqlwarden.Execution.History.Capped.{use_begin_run-capped}
use sqlwarden.Store.Runs.{new_run}
use sqlwarden.Store.State.{IdeState, ResultRun, QueryResult}
use sqlwarden.Tests.Stores.{with_runs}
use sqlwarden.Tests.Executions.{first_page}
use sqlwarden.Common.{
  String, map, lookup, List, ◌∷◌, Bool, ◌++◌, ◌≡◌, some, [], none, true, drop, IsDistinct, not,
  length, arith, ◌-◌, includes, ◌≤◌, string_eq, ◌&&◌, take, ◌==◌, false, refl,
}

abbrev old_ids : List String
old_ids =
    "r0" ∷ "r1" ∷ "r2" ∷ "r3" ∷ "r4" ∷ "r5" ∷ "r6" ∷ "r7" ∷ "r8" ∷ "r9" ∷ "r10" ∷ "r11" ∷ "r12"
    ∷ "r13" ∷ "r14" ∷ "r15" ∷ "r16" ∷ "r17" ∷ "r18" ∷ "r19" ∷ "r20" ∷ "r21" ∷ "r22" ∷ "r23" ∷ "r24"
    ∷ "r25" ∷ "r26" ∷ "r27" ∷ "r28" ∷ "r29" ∷ "r30" ∷ "r31" ∷ "r32" ∷ "r33" ∷ "r34" ∷ "r35" ∷ "r36"
    ∷ "r37" ∷ "r38" ∷ "r39" ∷ "r40" ∷ "r41" ∷ "r42" ∷ "r43" ∷ "r44" ∷ "r45" ∷ "r46" ∷ "r47" ∷ "r48"
    ∷ "r49" ∷ []

-- Each run holds the cursor of `first_page`.
abbrev old_run : String → ResultRun
old_run id = record {
  id = id;
  results = QueryResult.skipped "q0" ∷ QueryResult.ok first_page ∷ [];
  selected_index = 0;
  created_at = 0;
  connection_id = none;
}

abbrev full_history : IdeState
full_history = record with_runs { result_runs = ("t", map old_run old_ids) ∷ [] }

abbrev all_runs : List ResultRun
all_runs = map old_run old_ids ++ new_run "new" ("q" ∷ []) 9 (some 7) ∷ []

is_distinct : List String → Bool
is_distinct [] = true
is_distinct (x ∷ xs) = let rest = is_distinct xs in not (includes xs x) && rest

is_distinct-IsDistinct : (xs : List String) → is_distinct xs ≡ true → IsDistinct xs
unfolding is_distinct
is_distinct-IsDistinct [] h = tt
is_distinct-IsDistinct (x ∷ xs) h =
    (ground (arith, h), is_distinct-IsDistinct xs (ground (arith, h)))

use_begin_run-capped_example :
    let (given, (s', cursors)) =
      use_begin_run full_history (some "t") ("q" ∷ []) (some 7) "new" 9 in
    (given ≡ "new")
    × (lookup "t" s'.result_runs ≡ some (drop (length all_runs - 50) all_runs))
    × (length (drop (length all_runs - 50) all_runs) ≤ 50)
    × Closes (some 7) (results_of (take (length all_runs - 50) all_runs)) cursors
    × ((j : String)
        → ("t" == j) ≡ false
        → lookup j s'.result_runs ≡ lookup j full_history.result_runs)
unfolding lookup new_run is_distinct
use_begin_run-capped_example =
    use_begin_run-capped full_history "t" ("q" ∷ []) (some 7) "new" 9 all_runs refl refl
      (is_distinct-IsDistinct (map (λ run. run.id) all_runs) refl)
