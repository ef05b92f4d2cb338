-- ===== src/Execution/Batch.antt =====
-- frontend/src/components/ide/runStatementBatch.ts: running the statements of a batch in order.
-- `execute` stands for awaiting `ensureSession` with `runStatement`: what comes back for the statement
-- with the index, run with `confirmUnsafe` or not. `is_blank` tells of a message whether `trim()`
-- leaves nothing. A batch is the sequence of the calls it makes of its dependencies.
use sqlwarden.Common.{
  suc, none, some, [], ◌∷◌, ℕ, Option, String, get_or_else, Bool, List, true, option_beq,
  if◌then◌else◌, drop, string_eq, ◌++◌, false, nat_eq,
}
use sqlwarden.Api.{ResultSet, UnsafeStatement}
use sqlwarden.Store.State.{QueryResult, PendingUnsafeQuery}
use sqlwarden.Execution.Failure.{
  Attempt, done, threw, Failure, is_query_abort, error_message, api_error, abort_error, other_error,
  not_an_error,
}

pub data HistoryStatus : Type 0 where
  ok error cancelled : HistoryStatus

pub record RecordHistoryInput : Type 0 where
  pub sql_text : String
  pub status : HistoryStatus
  pub error_message : Option String
  pub duration_ms : ℕ
  pub rows_affected : ℕ

-- A call of one of the `BatchExecutionDependencies`, on the tab and the run of the batch.
pub data Call : Type 0 where
  set_controller : Option ℕ → Call
  set_running : Bool → Call
  set_result : ℕ → QueryResult → Call
  mark_skipped : ℕ → Call
  set_pending : PendingUnsafeQuery → Call
  record_history : RecordHistoryInput → Call

abbrev pub unsafe_code : String
unsafe_code = "unsafe_query_confirmation_required"

-- `isApiError(error) && error.code === UNSAFE_QUERY_CONFIRMATION_REQUIRED`, with its details.
unfoldable pub unsafe_details : Failure → Option (List UnsafeStatement)
unsafe_details (api_error e) =
    if option_beq e.code (some unsafe_code) then some (get_or_else e.details []) else none
unsafe_details (abort_error message) = none
unsafe_details (other_error message) = none
unsafe_details not_an_error = none

unfoldable pub ok_result : ℕ → String → ResultSet → QueryResult
ok_result c sql data_set = QueryResult.ok (record {
  result = data_set;
  duration_ms = data_set.duration_ms;
  sql = sql;
  connection_id = some c;
  is_fetching_next_page = none;
  cursor_message = none;
})

unfoldable pub history_ok : String → ResultSet → RecordHistoryInput
history_ok sql data_set = record {
  sql_text = sql;
  status = HistoryStatus.ok;
  error_message = none;
  duration_ms = data_set.duration_ms;
  rows_affected = get_or_else data_set.rows_affected 0;
}

unfoldable pub history_stopped : String → HistoryStatus → Option String → RecordHistoryInput
history_stopped sql status message = record {
  sql_text = sql;
  status = status;
  error_message = message;
  duration_ms = 0;
  rows_affected = 0;
}

-- The `catch` of the loop: every branch of it returns.
unfoldable pub stop_calls : (String → Bool) → String → ℕ → String → Failure → List Call
stop_calls is_blank run_id i sql e = elim (unsafe_details e) [
  | some details ↦
      set_result i (QueryResult.pending sql)
      ∷ set_pending
          (record { sql = sql; statements = details; run_id = run_id; statement_index = i })
      ∷ []
  | none ↦
      if is_query_abort e
      then set_result i (QueryResult.cancelled sql)
        ∷ record_history (history_stopped sql HistoryStatus.cancelled none)
        ∷ mark_skipped (suc i)
        ∷ []
      else let message = error_message is_blank e "Query failed" in
        set_result i (QueryResult.error message sql)
        ∷ record_history (history_stopped sql HistoryStatus.error (some message))
        ∷ mark_skipped (suc i)
        ∷ []
]

module _ (is_blank : String → Bool) (execute : ℕ → String → Bool → Attempt ResultSet) (c : ℕ)
    (run_id : String) (confirm_unsafe_at : Option ℕ) where
  -- The loop from the index `i`, where the statements `sqls` are left.
  unfoldable pub statement_calls : ℕ → List String → List Call
  statement_calls i [] = []
  statement_calls i (sql ∷ sqls) =
      let rest = statement_calls (suc i) sqls in
      set_result i (QueryResult.running sql)
      ∷ elim (execute i sql (option_beq (some i) confirm_unsafe_at)) [
        | done data_set ↦
            set_result i (ok_result c sql data_set)
            ∷ record_history (history_ok sql data_set)
            ∷ rest
        | threw e ↦ stop_calls is_blank run_id i sql e
      ]

  -- The batch on a run, with its `finally`.
  unfoldable pub run_statement_batch : Option ℕ → ℕ → List String → List Call
  run_statement_batch controller start_at sqls =
      set_controller controller ∷ set_running true ∷ statement_calls start_at (drop start_at sqls)
      ++ set_controller none ∷ set_running false ∷ []
