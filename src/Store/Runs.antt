-- ===== src/Store/Runs.antt =====
-- frontend/src/components/ide/useIdeStore.ts: the actions on the runs of a tab and their results.
use sqlwarden.Common.{
  ℕ, zero, suc, ◌-◌, Bool, not, List, [], ◌∷◌, ◌++◌, Option, none, some, String, if◌then◌else◌,
  ◌==◌, string_eq, nat_eq, lookup, insert, erase, map, filter, includes, get_elem?, find_index,
  get_or_else, option_eq,
}
use sqlwarden.Store.State.{
  IdeState, ResultRun, QueryResult, pending, PendingUnsafeQuery, skip_from_index,
}

unfoldable pub new_run : String → List String → ℕ → Option ℕ → ResultRun
new_run run_id sqls now connection_id = record {
  id = run_id;
  results = map pending sqls;
  selected_index = 0;
  created_at = now;
  connection_id = connection_id;
}

-- The id of the run and the time of the call are the caller's.
unfoldable pub begin_run : IdeState → String → List String → Option ℕ → String → ℕ → IdeState
begin_run s tab_id sqls connection_id run_id now = record s {
  result_runs =
      insert tab_id
        (get_or_else (lookup tab_id s.result_runs) [] ++ new_run run_id sqls now connection_id ∷ [])
        s.result_runs;
  selected_run_id = insert tab_id run_id s.selected_run_id;
}

-- An action that rewrites the runs of a tab, and does nothing where there are none.
unfoldable pub update_runs : IdeState → String → (List ResultRun → List ResultRun) → IdeState
update_runs s tab_id f = elim (lookup tab_id s.result_runs) [
  | none ↦ s
  | some runs ↦ record s { result_runs = insert tab_id (f runs) s.result_runs }
]

-- `runs.map((run) => run.id === runId ? f(run) : run)`.
unfoldable pub update_run : String → (ResultRun → ResultRun) → List ResultRun → List ResultRun
update_run run_id f runs = map (λ run. if run.id == run_id then f run else run) runs

unfoldable pub evict_runs : IdeState → String → List String → IdeState
evict_runs s tab_id run_ids = update_runs s tab_id (filter (λ run. not (includes run_ids run.id)))

-- `results[index] = result`. The model leaves out a write more than one past the end, which makes a
-- hole in the array: it changes nothing here.
unfoldable pub write_at : ℕ → QueryResult → List QueryResult → List QueryResult
write_at zero r [] = r ∷ []
write_at (suc i) r [] = []
write_at zero r (x ∷ xs) = r ∷ xs
write_at (suc i) r (x ∷ xs) = x ∷ write_at i r xs

unfoldable pub set_run_statement_result : IdeState → String → String → ℕ → QueryResult → IdeState
set_run_statement_result s tab_id run_id index result =
    update_runs s tab_id
      (update_run run_id (λ run. record run { results = write_at index result run.results }))

unfoldable pub skip_run : ℕ → ResultRun → ResultRun
skip_run from_index run = record run { results = skip_from_index run.results from_index }

unfoldable pub mark_run_remaining_skipped : IdeState → String → String → ℕ → IdeState
mark_run_remaining_skipped s tab_id run_id from_index =
    update_runs s tab_id (update_run run_id (skip_run from_index))

unfoldable pub set_tab_running : IdeState → String → Bool → IdeState
set_tab_running s tab_id is_running = record s {
  running_tabs = insert tab_id is_running s.running_tabs;
}

unfoldable pub set_tab_controller : IdeState → String → Option ℕ → IdeState
set_tab_controller s tab_id none = record s { abort_controllers = erase tab_id s.abort_controllers }
set_tab_controller s tab_id (some c) = record s {
  abort_controllers = insert tab_id c s.abort_controllers;
}

unfoldable pub set_pending_confirmation : IdeState → String → PendingUnsafeQuery → IdeState
set_pending_confirmation s tab_id p = record s {
  pending_confirmations = insert tab_id p s.pending_confirmations;
}

unfoldable pub clear_pending_confirmation : IdeState → String → IdeState
clear_pending_confirmation s tab_id = record s {
  pending_confirmations = erase tab_id s.pending_confirmations;
}

unfoldable pub abandon_pending_run_confirmation : IdeState → String → IdeState
unfolding clear_pending_confirmation
abandon_pending_run_confirmation s tab_id = elim (lookup tab_id s.pending_confirmations) [
  | none ↦ clear_pending_confirmation s tab_id
  | some p ↦
      update_runs (clear_pending_confirmation s tab_id) tab_id
        (update_run p.run_id (skip_run p.statement_index))
]

unfoldable pub set_selected_run : IdeState → String → String → IdeState
set_selected_run s tab_id run_id = record s {
  selected_run_id = insert tab_id run_id s.selected_run_id;
}

unfoldable pub set_selected_index_in_run : IdeState → String → String → ℕ → IdeState
set_selected_index_in_run s tab_id run_id index =
    update_runs s tab_id (update_run run_id (λ run. record run { selected_index = index }))

-- `nextRuns[Math.max(0, closedIndex - 1)]`, where a missing run has the index -1.
unfoldable pub fallback_run : List ResultRun → Option ℕ → Option ResultRun
fallback_run runs none = get_elem? runs 0
fallback_run runs (some i) = get_elem? runs (i - 1)

-- The patch of the selection: only a closed run that was selected hands it on. (The ids of a tab's
-- runs are distinct, so the fallback is missing only if no run is left.)
unfoldable pub reselect : Option String → List ResultRun → String → Option ℕ → Option String
reselect selected next_runs run_id closed =
    if selected == some run_id
    then elim (fallback_run next_runs closed) [ none ↦ none | some run ↦ some run.id ]
    else none

unfoldable pub put_selection : IdeState → String → Option String → IdeState
put_selection s tab_id none = s
put_selection s tab_id (some run_id) = record s {
  selected_run_id = insert tab_id run_id s.selected_run_id;
}

unfoldable pub close_run_tab : IdeState → String → String → IdeState
close_run_tab s tab_id run_id = elim (lookup tab_id s.result_runs) [
  | none ↦ s
  | some runs ↦
      let next_runs = filter (λ run. not (run.id == run_id)) runs in
      put_selection (record s { result_runs = insert tab_id next_runs s.result_runs }) tab_id
        (reselect (lookup tab_id s.selected_run_id) next_runs run_id
          (find_index (λ run. run.id == run_id) runs))
]
