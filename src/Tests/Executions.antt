-- ===== src/Tests/Executions.antt =====
-- A batch of three statements of which the second is aborted, a session that is gone, and two pages.
use sqlwarden.Execution.Saving.{
  save_editor_tab, save_as, IsUnsavable, HasTarget, IsSaved, save_editor_tab-outcome,
}
use sqlwarden.Execution.Terminal.{run_statement_batch-IsTerminal}
use sqlwarden.Execution.Play.{play}
use sqlwarden.Execution.Settled.{settled, outcome_of, run_statement_batch-settled}
use sqlwarden.Execution.Session.{use_ensure_session}
use sqlwarden.Execution.Session.Recovery.{IsSettled, use_ensure_session-IsSettled}
use sqlwarden.Store.Laws.Runs.{run_named}
use sqlwarden.Execution.Paging.{HasPages, load_pages, load_pages-HasPages}
use sqlwarden.Execution.Batch.{Call, run_statement_batch, unsafe_details, ok_result}
use sqlwarden.Common.{
  List, [], ◌∷◌, none, some, lookup, ℕ, false, String, if◌then◌else◌, Bool, string_eq, ◌==◌, ◌≡◌,
  refl, nat_eq, length, All, Bool-cases, inl, true, arith, subst, inr, ◌⊎◌,
}
use sqlwarden.Api.{ResultSet}
use sqlwarden.Store.State.{
  IdeState, QueryResult, ResultRun, OkResult, is_terminal, EditorTab, TabKind,
}
use sqlwarden.Execution.Failure.{
  Attempt, done, threw, Failure, api_error, abort_error, is_query_abort,
}
use sqlwarden.Tests.Stores.{with_runs, sample_tab}

abbrev empty_set : ResultSet
empty_set = record {
  columns = none;
  rows = some [];
  rows_affected = none;
  duration_ms = 3;
  truncated = false;
  rows_returned = 0;
  bytes_returned = 5;
  truncation_reason = none;
  query_cursor_id = some "c";
  exhausted = some false;
  page_size = none;
}

abbrev sqls : List String
sqls = "q1" ∷ "q2" ∷ "q3" ∷ []

abbrev execute : ℕ → String → Bool → Attempt ResultSet
execute i sql confirmed = if i == 0 then done empty_set else threw (abort_error "aborted")

abbrev never_blank : String → Bool
never_blank message = false

abbrev batch_run : ResultRun
batch_run = record {
  id = "r";
  results = QueryResult.pending "q1" ∷ QueryResult.pending "q2" ∷ QueryResult.pending "q3" ∷ [];
  selected_index = 0;
  created_at = 9;
  connection_id = some 7;
}

abbrev begun : IdeState
begun = record with_runs { result_runs = ("t", batch_run ∷ []) ∷ [] }

abbrev calls : List Call
calls = run_statement_batch never_blank execute 7 "r" none (some 1) 0 sqls

run_statement_batch-settled_example :
    ((run : ResultRun) × (run_named (play "t" "r" calls begun) "t" "r" ≡ some run)
      × (run.results
          ≡ ok_result 7 "q1" empty_set
            ∷ QueryResult.cancelled "q2"
            ∷ QueryResult.skipped "q3"
            ∷ []))
    × (lookup "t" (play "t" "r" calls begun).running_tabs ≡ some false)
    × (lookup "t" (play "t" "r" calls begun).abort_controllers ≡ none)
unfolding run_named lookup settled outcome_of unsafe_details is_query_abort
run_statement_batch-settled_example =
    run_statement_batch-settled never_blank execute 7 "r" none "t" begun batch_run (some 1) 0 sqls
      [] refl refl refl

abbrev gone : Failure
gone = api_error (record { message = "gone"; status = 410; code = none; details = none })

abbrev reconnect : ℕ → Attempt String
reconnect attempt = done "fresh"

abbrev read : ℕ → String → Attempt ℕ
read attempt id = if id == "fresh" then done 42 else threw gone

-- The component was rendered with a session that the store has no more, and that is gone.
use_ensure_session-IsSettled_example :
    (out : Attempt ℕ × IdeState) × (use_ensure_session reconnect read 7
        ((7, "stale") ∷ [])
        with_runs
      ≡ some out)
    × IsSettled reconnect read 7 (some "stale") with_runs out
unfolding lookup
use_ensure_session-IsSettled_example =
    use_ensure_session-IsSettled reconnect read 7 ((7, "stale") ∷ []) with_runs

abbrev pub first_page : OkResult
first_page = record {
  result = empty_set;
  duration_ms = 3;
  sql = "q1";
  connection_id = some 7;
  is_fetching_next_page = none;
  cursor_message = none;
}

abbrev last_set : ResultSet
last_set = record empty_set { exhausted = none; query_cursor_id = none }

load_pages-HasPages_example :
    HasPages first_page
      (empty_set ∷ last_set ∷ [])
      (load_pages first_page (empty_set ∷ last_set ∷ []))
load_pages-HasPages_example = load_pages-HasPages first_page (empty_set ∷ last_set ∷ []) "c" refl

abbrev all_run : ℕ → String → Bool → Attempt ResultSet
all_run i sql confirmed = if i == 1 then threw (abort_error "aborted") else done empty_set

all_run-safe :
    (j : ℕ) (sql : String) (b : Bool) (e : Failure)
    → all_run j sql b ≡ threw e
    → unsafe_details e ≡ none
unfolding unsafe_details
all_run-safe j sql b e h = elim (Bool-cases (j == 1)) [
  | inl k ↦
      let same : abort_error "aborted" ≡ e = ground arith in
      subst (λ f. unsafe_details f ≡ none) same refl
  | inr k ↦ ground arith
]

run_statement_batch-IsTerminal_example :
    let played =
      play "t" "r" (run_statement_batch never_blank all_run 7 "r" none (some 1) 0 sqls) begun in
    (run : ResultRun) × (run_named played "t" "r" ≡ some run)
    × All (λ r. is_terminal r ≡ true) run.results
    × (length run.results ≡ 3)
unfolding run_named lookup
run_statement_batch-IsTerminal_example =
    run_statement_batch-IsTerminal never_blank all_run 7 "r" none "t" begun batch_run (some 1) sqls
      refl refl all_run-safe

abbrev file_tab : EditorTab
file_tab = record sample_tab {
  kind = TabKind.file;
  file_id = some 4;
  etag = some "e1";
  is_dirty = some true;
}

abbrev with_file : IdeState
with_file = record with_runs { tabs = file_tab ∷ [] }

abbrev keep : ℕ → String → String → Attempt String
keep file_id content etag = done "e2"

abbrev read_nothing : EditorTab → String
read_nothing tab = "select 1"

save_editor_tab-outcome_example :
    (IsUnsavable file_tab
      × (save_editor_tab read_nothing keep file_tab with_file
          ≡ (done (save_as (record file_tab { content = "select 1" })), with_file)))
    ⊎ ((file_id : ℕ) × (etag : String) × HasTarget file_tab file_id etag
        × IsSaved file_tab with_file
            (keep file_id "select 1" etag)
            (save_editor_tab read_nothing keep file_tab with_file))
save_editor_tab-outcome_example = save_editor_tab-outcome read_nothing keep file_tab with_file refl
