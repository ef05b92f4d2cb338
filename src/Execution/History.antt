-- ===== src/Execution/History.antt =====
-- frontend/src/components/ide/resultRunHistory.ts and useBeginRun.ts: the cap on the runs of a tab.
pub mod Cursors
pub mod Capped
use sqlwarden.Common.{
  zero, [], suc, none, some, ◌∷◌, String, Option, List, ℕ, filter, length, ◌≤◌, includes,
  IsDistinct, get_or_else, ◌++◌, or_else, lookup, take, map, if◌then◌else◌, ◌-◌, drop, not, ltb,
  ◌≡◌, ◌==◌, ◌||◌, string_eq, false, arith, eq_iff, refl, nat_eq, lookup-insert_self, Bool-cases,
  inl, inr, lookup-insert, true, beq_refl, ap, ◌∙◌, ◌≢◌,
}
use sqlwarden.Store.State.{
  IdeState, ResultRun, QueryResult, ok, idle, pending, running, error, cancelled, skipped, OkResult,
}
use sqlwarden.Store.Runs.{begin_run, evict_runs, new_run, update_runs}

abbrev pub run_history_cap : ℕ
run_history_cap = 50

unfoldable pub runs_to_evict : List ResultRun → List ResultRun
runs_to_evict existing =
    let excess = length existing - run_history_cap in
    if ltb 0 excess then take excess existing else []

-- `if (!cursorId) continue` and `if (!connectionId) continue`: the empty id and 0 count as missing.
unfoldable pub cursor_of : Option ℕ → QueryResult → List (ℕ × String)
cursor_of fallback (ok r) = elim r.result.query_cursor_id [
  | none ↦ []
  | some cursor_id ↦ elim (or_else r.connection_id fallback) [
    | none ↦ []
    | some c ↦ if cursor_id == "" || c == 0 then [] else (c, cursor_id) ∷ []
  ]
]
cursor_of fallback idle = []
cursor_of fallback (pending sql) = []
cursor_of fallback (running sql) = []
cursor_of fallback (error message sql) = []
cursor_of fallback (cancelled sql) = []
cursor_of fallback (skipped sql) = []

-- The cursors that are closed for a list of results, in order, each with its connection.
unfoldable pub close_run_cursors : Option ℕ → List QueryResult → List (ℕ × String)
close_run_cursors fallback [] = []
close_run_cursors fallback (r ∷ rs) = cursor_of fallback r ++ close_run_cursors fallback rs

unfoldable pub close_evicted : Option ℕ → List ResultRun → List (ℕ × String)
close_evicted fallback [] = []
close_evicted fallback (run ∷ runs) =
    close_run_cursors fallback run.results ++ close_evicted fallback runs

-- The second half of the callback of `useBeginRun`: the store, and the cursors whose closing it starts.
unfoldable pub evict_oldest : IdeState → String → Option ℕ → IdeState × List (ℕ × String)
evict_oldest s tab_id fallback =
    let evicted = runs_to_evict (get_or_else (lookup tab_id s.result_runs) []) in
    if ltb 0 (length evicted)
    then (evict_runs s tab_id (map (λ run. run.id) evicted), close_evicted fallback evicted)
    else (s, [])

-- The callback of `useBeginRun`, where the store is there: the run's id, the store and the cursors. Where
-- no tab is given, or one with the empty id, nothing happens.
unfoldable pub use_begin_run :
    IdeState
    → Option String
    → List String
    → Option ℕ
    → String
    → ℕ
    → String × (IdeState × List (ℕ × String))
use_begin_run s none sqls fallback run_id now = ("", (s, []))
use_begin_run s (some tab_id) sqls fallback run_id now =
    if tab_id == ""
    then ("", (s, []))
    else (run_id, evict_oldest (begin_run s tab_id sqls fallback run_id now) tab_id fallback)
