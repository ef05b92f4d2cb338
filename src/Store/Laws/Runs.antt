-- ===== src/Store/Laws/Runs.antt =====
-- The runs of a tab: what a written result and a skipped rest read back as.
use sqlwarden.Common.{
  zero, [], suc, List, ℕ, get_elem?, ◌≡◌, ◌≤◌, String, length, find, lookup, if◌then◌else◌, ◌==◌,
  some, arith, ◌∷◌, nat_eq, none, refl, eq_iff, ltb, Option-cases, inl, string_eq, inr,
  lookup-insert, Option, ◌&&◌, not, Bool-cases, option_eq,
}
use sqlwarden.Store.State.{
  IdeState, ResultRun, QueryResult, skip_from_index, skip_entry, is_terminal, sql_of, idle, pending,
  running, ok, error, cancelled, skipped,
}
use sqlwarden.Store.Runs.{
  set_run_statement_result, update_runs, update_run, write_at, mark_run_remaining_skipped, skip_run,
}

-- `skipFromIndex` keeps the length and every entry before the index; from the index on it keeps the
-- terminal entries and skips the others with their statement.
pub skip_from_index-get_elem? :
    (rs : List QueryResult) (from i : ℕ)
    → get_elem? (skip_from_index rs from) i ≡ elim (get_elem? rs i) [
      | none ↦ none
      | some r ↦ some (if ltb i from then r else skip_entry r)
    ]
unfolding skip_from_index
skip_from_index-get_elem? [] from i = refl
skip_from_index-get_elem? (r ∷ rs) zero zero = ground arith
skip_from_index-get_elem? (r ∷ rs) zero (suc i) =
    ground (arith, skip_from_index-get_elem? rs zero i)
skip_from_index-get_elem? (r ∷ rs) (suc from) zero = ground arith
skip_from_index-get_elem? (r ∷ rs) (suc from) (suc i) =
    ground (arith, skip_from_index-get_elem? rs from i)

-- An action on the runs of a tab leaves the other tabs alone.
lookup-update_runs :
    (s : IdeState) (tab_id j : String) (f : List ResultRun → List ResultRun)
    → lookup j (update_runs s tab_id f).result_runs ≡ (
        if tab_id == j
        then elim (lookup j s.result_runs) [ none ↦ none | some runs ↦ some (f runs) ]
        else lookup j s.result_runs)
unfolding update_runs
lookup-update_runs s tab_id j f = elim (Option-cases (lookup tab_id s.result_runs)) [
  | inl e ↦ ground (arith, eq_iff tab_id j)
  | inr (runs, e) ↦ ground (arith, eq_iff tab_id j, lookup-insert tab_id j (f runs) s.result_runs)
]

-- A run is found by its id, changed or not, if the change keeps ids.
find-update_run :
    (run_id id : String) (f : ResultRun → ResultRun) (runs : List ResultRun)
    → ((run : ResultRun) → (f run).id ≡ run.id)
    → find (λ run. run.id == id) (update_run run_id f runs)
      ≡ elim (find (λ run. run.id == id) runs) [
        | none ↦ none
        | some run ↦ some (if id == run_id then f run else run)
      ]
unfolding update_run
find-update_run run_id id f [] h = refl
find-update_run run_id id f (x ∷ xs) h = ground (
  arith,
  find-update_run run_id id f xs h,
  h x,
  eq_iff x.id id,
  eq_iff x.id run_id,
  eq_iff id run_id,
)

-- Writing at an index that the array has, or at its end.
get_elem?-write_at :
    (i : ℕ) (r : QueryResult) (rs : List QueryResult) (j : ℕ)
    → i ≤ length rs
    → get_elem? (write_at i r rs) j ≡ (if i == j then some r else get_elem? rs j)
unfolding write_at
get_elem?-write_at zero r [] zero h = ground arith
get_elem?-write_at zero r [] (suc j) h = ground arith
get_elem?-write_at (suc i) r [] j h = ground arith
get_elem?-write_at zero r (x ∷ xs) zero h = ground arith
get_elem?-write_at zero r (x ∷ xs) (suc j) h = ground arith
get_elem?-write_at (suc i) r (x ∷ xs) zero h = ground arith
get_elem?-write_at (suc i) r (x ∷ xs) (suc j) h =
    ground (arith, get_elem?-write_at i r xs j (omega arith))

-- The run of a tab with an id, and its result at an index.
unfoldable pub run_named : IdeState → String → String → Option ResultRun
run_named s tab_id run_id = elim (lookup tab_id s.result_runs) [
  | none ↦ none
  | some runs ↦ find (λ run. run.id == run_id) runs
]

unfoldable pub result_at : IdeState → String → String → ℕ → Option QueryResult
result_at s tab_id run_id i = elim (run_named s tab_id run_id) [
  | none ↦ none
  | some run ↦ get_elem? run.results i
]

-- A change of one run of one tab, as its readers see it.
pub run_named-update_run :
    (s : IdeState) (tab_id run_id j id : String) (f : ResultRun → ResultRun)
    → ((run : ResultRun) → (f run).id ≡ run.id)
    → run_named (update_runs s tab_id (update_run run_id f)) j id ≡ elim (run_named s j id) [
      | none ↦ none
      | some run ↦ some (if tab_id == j && id == run_id then f run else run)
    ]
unfolding run_named
run_named-update_run s tab_id run_id j id f h = elim (Option-cases (lookup j s.result_runs)) [
  | inl e ↦ ground (arith, lookup-update_runs s tab_id j (update_run run_id f))
  | inr (runs, e) ↦ ground (
    arith,
    lookup-update_runs s tab_id j (update_run run_id f),
    find-update_run run_id id f runs h,
  )
]

-- `setRunStatementResult` on a statement of an existing run: the result reads back, and every other
-- result of every run of every tab is as it was.
pub result_at-set_run_statement_result :
    (s : IdeState) (tab_id run_id : String) (i : ℕ) (r : QueryResult) (run : ResultRun)
    → run_named s tab_id run_id ≡ some run
    → i ≤ length run.results
    → (j id : String) (k : ℕ)
    → result_at (set_run_statement_result s tab_id run_id i r) j id k
      ≡ (if tab_id == j && id == run_id && i == k then some r else result_at s j id k)
unfolding set_run_statement_result result_at
result_at-set_run_statement_result s tab_id run_id i r run e h j id k =
    let law =
      run_named-update_run s tab_id run_id j id (λ q. record q { results = write_at i r q.results })
        (λ q. refl) in
    elim (Option-cases (run_named s j id)) [
      | inl f ↦ ground (arith, law, e, eq_iff tab_id j, eq_iff id run_id)
      | inr (q, f) ↦ elim (Bool-cases (tab_id == j && id == run_id)) [
        | inr d ↦ ground (arith, law)
        | inl d ↦
            let l : i ≤ length q.results = ground (arith, eq_iff tab_id j, eq_iff id run_id, e) in
            ground (arith, law, get_elem?-write_at i r q.results k l)
      ]
    ]

-- What skipping makes of a result: one that has ended stays, and one that waits, runs or is idle is
-- skipped with the statement it has.
abbrev pub after_skip : QueryResult → QueryResult
after_skip idle = skipped ""
after_skip (pending sql) = skipped sql
after_skip (running sql) = skipped sql
after_skip (ok r) = ok r
after_skip (error message sql) = error message sql
after_skip (cancelled sql) = cancelled sql
after_skip (skipped sql) = skipped sql

skip_entry-after_skip : (r : QueryResult) → skip_entry r ≡ after_skip r
unfolding skip_entry is_terminal sql_of
skip_entry-after_skip idle = refl
skip_entry-after_skip (pending sql) = refl
skip_entry-after_skip (running sql) = refl
skip_entry-after_skip (ok r) = refl
skip_entry-after_skip (error message sql) = refl
skip_entry-after_skip (cancelled sql) = refl
skip_entry-after_skip (skipped sql) = refl

-- `markRunRemainingSkipped`: from the index on, the results of that run that are pending or running
-- become `skipped` with their statement, and those that are idle `skipped` with the empty one; those
-- that are ok, failed, cancelled or skipped, and every result before the index, of another run, or
-- of another tab, are as they were.
pub result_at-mark_run_remaining_skipped :
    (s : IdeState) (tab_id run_id : String) (from : ℕ) (j id : String) (k : ℕ)
    → result_at (mark_run_remaining_skipped s tab_id run_id from) j id k
      ≡ elim (result_at s j id k) [
        | none ↦ none
        | some r ↦
            some (if tab_id == j && id == run_id && not (ltb k from) then after_skip r else r)
      ]
unfolding mark_run_remaining_skipped skip_run result_at
result_at-mark_run_remaining_skipped s tab_id run_id from j id k =
    let law = run_named-update_run s tab_id run_id j id (skip_run from) (λ q. refl) in
    elim (Option-cases (run_named s j id)) [
      | inl f ↦ ground (arith, law)
      | inr (q, f) ↦ elim (Option-cases (get_elem? q.results k)) [
        | inl g ↦ ground (arith, law, g, skip_from_index-get_elem? q.results from k)
        | inr (r, g) ↦
            ground
              (arith, law, g, skip_from_index-get_elem? q.results from k, skip_entry-after_skip r)
      ]
    ]
