-- ===== src/Execution/Play.antt =====
-- The calls of a batch, played on a store, and as the results of its run see them.
use sqlwarden.Api.{ResultSet}
use sqlwarden.Execution.Failure.{Attempt}
use sqlwarden.Store.Laws.Runs.{run_named, run_named-update_run}
use sqlwarden.Common.{
  zero, suc, none, some, [], ◌∷◌, List, String, ◌++◌, ℕ, ◌≡◌, length, arith, map, nat_eq, ap, refl,
  ◌∙◌, lookup, false, eq_iff, string_eq, lookup-insert_self, lookup-erase_self, Option, Bool,
  get_or_else,
}
use sqlwarden.Store.State.{
  IdeState, QueryResult, pending, skipped, skip_from_index, skip_entry, is_terminal, sql_of,
  ResultRun,
}
use sqlwarden.Store.Runs.{
  set_run_statement_result, mark_run_remaining_skipped, set_tab_running, set_tab_controller,
  set_pending_confirmation, write_at, skip_run, update_runs, update_run,
}
use sqlwarden.Execution.Batch.{
  Call, set_controller, set_running, set_result, mark_skipped, set_pending, record_history,
  run_statement_batch,
}

-- A call as the action of the store that it is wired to.
unfoldable pub play_call : String → String → Call → IdeState → IdeState
play_call tab_id run_id (set_controller c) s = set_tab_controller s tab_id c
play_call tab_id run_id (set_running b) s = set_tab_running s tab_id b
play_call tab_id run_id (set_result i r) s = set_run_statement_result s tab_id run_id i r
play_call tab_id run_id (mark_skipped i) s = mark_run_remaining_skipped s tab_id run_id i
play_call tab_id run_id (set_pending p) s = set_pending_confirmation s tab_id p
play_call tab_id run_id (record_history h) s = s

unfoldable pub play : String → String → List Call → IdeState → IdeState
play tab_id run_id [] s = s
play tab_id run_id (call ∷ calls) s = play tab_id run_id calls (play_call tab_id run_id call s)

-- `request.runId ?? deps.beginRun(tabId, sqls)`: a run that is there already, or a new one, for which
-- `begin_new` stands.
unfoldable pub request_run :
    Option String → (IdeState → String × IdeState) → IdeState → String × IdeState
request_run none begin_new s = begin_new s
request_run (some run_id) begin_new s = (run_id, s)

-- The whole of `runStatementBatch` on a store, with the id that it resolves to.
unfoldable pub perform_batch :
    (String → Bool)
    → (ℕ → String → Bool → Attempt ResultSet)
    → (IdeState → String × IdeState)
    → String
    → ℕ
    → List String
    → Option ℕ
    → Option String
    → Option ℕ
    → Option ℕ
    → IdeState
    → String × IdeState
perform_batch is_blank execute begin_new tab_id c sqls controller run_id start_at confirm_unsafe_at
      s =
    let (id, begun) = request_run run_id begin_new s in
    (
      id,
      play tab_id id
          (run_statement_batch is_blank execute c id confirm_unsafe_at controller
            (get_or_else start_at 0) sqls)
          begun,
    )

pub play-append :
    (tab_id run_id : String) (front bs : List Call) (s : IdeState)
    → play tab_id run_id (front ++ bs) s ≡ play tab_id run_id bs (play tab_id run_id front s)
unfolding play
play-append tab_id run_id [] bs s = refl
play-append tab_id run_id (call ∷ front) bs s =
    play-append tab_id run_id front bs (play_call tab_id run_id call s)

-- The same calls, as the results of the run see them.
unfoldable pub replay_call : Call → List QueryResult → List QueryResult
replay_call (set_controller c) rs = rs
replay_call (set_running b) rs = rs
replay_call (set_result i r) rs = write_at i r rs
replay_call (mark_skipped i) rs = skip_from_index rs i
replay_call (set_pending p) rs = rs
replay_call (record_history h) rs = rs

unfoldable pub replay : List Call → List QueryResult → List QueryResult
replay [] rs = rs
replay (call ∷ calls) rs = replay calls (replay_call call rs)

pub replay-append :
    (front bs : List Call) (rs : List QueryResult)
    → replay (front ++ bs) rs ≡ replay bs (replay front rs)
unfolding replay
replay-append [] bs rs = refl
replay-append (call ∷ front) bs rs = replay-append front bs (replay_call call rs)

pub write_at-append :
    (pre : List QueryResult) (i : ℕ) (r x : QueryResult) (rs : List QueryResult)
    → length pre ≡ i
    → write_at i r (pre ++ x ∷ rs) ≡ pre ++ r ∷ rs
unfolding write_at
write_at-append [] zero r x rs h = refl
write_at-append [] (suc i) r x rs h = ground arith
write_at-append (y ∷ ys) zero r x rs h = ground arith
write_at-append (y ∷ ys) (suc i) r x rs h =
    ap (λ l. y ∷ l) (write_at-append ys i r x rs (omega arith))

pub write_at-twice :
    (pre : List QueryResult) (i : ℕ) (q r x : QueryResult) (rs : List QueryResult)
    → length pre ≡ i
    → write_at i r (write_at i q (pre ++ x ∷ rs)) ≡ pre ++ r ∷ rs
write_at-twice pre i q r x rs h =
    rw (write_at-append pre i q x rs h) (write_at-append pre i r q rs h)

skip_from_index-pending :
    (sqls : List String) → skip_from_index (map pending sqls) 0 ≡ map skipped sqls
unfolding skip_from_index skip_entry is_terminal sql_of
skip_from_index-pending [] = refl
skip_from_index-pending (q ∷ qs) = ap (λ l. skipped q ∷ l) (skip_from_index-pending qs)

pub skip_from_index-append :
    (pre : List QueryResult) (r : QueryResult) (sqls : List String) (i : ℕ)
    → length pre ≡ i
    → skip_from_index (pre ++ r ∷ map pending sqls) (suc i) ≡ pre ++ r ∷ map skipped sqls
unfolding skip_from_index
skip_from_index-append [] r sqls zero h = ap (λ l. r ∷ l) (skip_from_index-pending sqls)
skip_from_index-append [] r sqls (suc i) h = ground arith
skip_from_index-append (y ∷ ys) r sqls zero h = ground arith
skip_from_index-append (y ∷ ys) r sqls (suc i) h =
    ap (λ l. y ∷ l) (skip_from_index-append ys r sqls i (omega arith))

changed :
    (s : IdeState) (tab_id run_id : String) (f : ResultRun → ResultRun) (run : ResultRun)
    → ((q : ResultRun) → (f q).id ≡ q.id)
    → run_named s tab_id run_id ≡ some run
    → run_named (update_runs s tab_id (update_run run_id f)) tab_id run_id ≡ some (f run)
changed s tab_id run_id f run h e = ground (
  arith,
  run_named-update_run s tab_id run_id tab_id run_id f h,
  eq_iff tab_id tab_id,
  eq_iff run_id run_id,
)

-- A call on the run, as its reader finds it.
play_call-run_named :
    (tab_id run_id : String) (call : Call) (s : IdeState) (run : ResultRun)
    → run_named s tab_id run_id ≡ some run
    → (run' : ResultRun) × (run_named (play_call tab_id run_id call s) tab_id run_id ≡ some run')
      × (run'.results ≡ replay_call call run.results)
unfolding play_call replay_call run_named set_tab_controller set_tab_running
    set_run_statement_result mark_run_remaining_skipped skip_run set_pending_confirmation
play_call-run_named tab_id run_id (set_controller none) s run e = (run, e, refl)
play_call-run_named tab_id run_id (set_controller (some c)) s run e = (run, e, refl)
play_call-run_named tab_id run_id (set_running b) s run e = (run, e, refl)
play_call-run_named tab_id run_id (set_result i r) s run e = (
  record run { results = write_at i r run.results },
  changed s tab_id run_id (λ q. record q { results = write_at i r q.results }) run (λ q. refl) e,
  refl,
)
play_call-run_named tab_id run_id (mark_skipped i) s run e =
    (skip_run i run, changed s tab_id run_id (skip_run i) run (λ q. refl) e, refl)
play_call-run_named tab_id run_id (set_pending p) s run e = (run, e, refl)
play_call-run_named tab_id run_id (record_history h) s run e = (run, e, refl)

pub play-run_named :
    (tab_id run_id : String) (calls : List Call) (s : IdeState) (run : ResultRun)
    → run_named s tab_id run_id ≡ some run
    → (run' : ResultRun) × (run_named (play tab_id run_id calls s) tab_id run_id ≡ some run')
      × (run'.results ≡ replay calls run.results)
unfolding play replay
play-run_named tab_id run_id [] s run e = (run, e, refl)
play-run_named tab_id run_id (call ∷ calls) s run e =
    let (run', f, h) = play_call-run_named tab_id run_id call s run e in
    let (run'', g, k) =
      play-run_named tab_id run_id calls (play_call tab_id run_id call s) run' f in
    (run'', g, k ∙ ap (replay calls) h)

pub play-rest_running :
    (tab_id run_id : String) (s : IdeState)
    → lookup tab_id
        (play tab_id run_id (set_controller none ∷ set_running false ∷ []) s).running_tabs
      ≡ some false
unfolding play play_call set_tab_running set_tab_controller
play-rest_running tab_id run_id s = lookup-insert_self tab_id false s.running_tabs

pub play-rest_controller :
    (tab_id run_id : String) (s : IdeState)
    → lookup tab_id
        (play tab_id run_id (set_controller none ∷ set_running false ∷ []) s).abort_controllers
      ≡ none
unfolding play play_call set_tab_running set_tab_controller
play-rest_controller tab_id run_id s = lookup-erase_self tab_id s.abort_controllers
