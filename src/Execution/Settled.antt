-- ===== src/Execution/Settled.antt =====
-- What a batch leaves behind in the store.
use sqlwarden.Execution.Play.{
  play, play-append, replay, replay_call, replay-append, write_at-twice, skip_from_index-append,
  play-run_named, play-rest_running, play-rest_controller,
}
use sqlwarden.Store.Laws.Runs.{run_named}
use sqlwarden.Common.{
  suc, none, some, [], ◌∷◌, List, String, ◌++◌, Bool, ℕ, if◌then◌else◌, Option, ◌≡◌, length,
  option_beq, arith, map, nat_eq, ap, refl, inl, ◌∙◌, sym, append_assoc, length-append, inr,
  Option-cases, Bool-cases, drop, lookup, false, string_eq, true,
}
use sqlwarden.Api.{ResultSet}
use sqlwarden.Store.State.{
  IdeState, QueryResult, pending, running, error, cancelled, skipped, skip_from_index, ResultRun,
}
use sqlwarden.Execution.Failure.{
  Attempt, done, threw, Failure, is_query_abort, error_message, Attempt-cases,
}
use sqlwarden.Execution.Batch.{
  set_controller, set_running, statement_calls, stop_calls, run_statement_batch, ok_result,
  unsafe_details,
}

-- What the results of the statements from the index on come to: up to the first that does not succeed
-- they are `ok`, that one says how it ended, and the rest is skipped, or waits if it has to be confirmed.
unfoldable pub outcome_of : (String → Bool) → String → Failure → QueryResult
outcome_of is_blank sql e = elim (unsafe_details e) [
  | some details ↦ pending sql
  | none ↦
      if is_query_abort e
      then cancelled sql
      else error (error_message is_blank e "Query failed") sql
]

module _ (is_blank : String → Bool) (execute : ℕ → String → Bool → Attempt ResultSet) (c : ℕ)
    (run_id : String) (confirm_unsafe_at : Option ℕ) where
  unfoldable pub settled : ℕ → List String → List QueryResult
  settled i [] = []
  settled i (sql ∷ sqls) =
      let rest = settled (suc i) sqls in
      elim (execute i sql (option_beq (some i) confirm_unsafe_at)) [
        | done data_set ↦ ok_result c sql data_set ∷ rest
        | threw e ↦
            outcome_of is_blank sql e
            ∷ elim (unsafe_details e) [ some details ↦ map pending sqls | none ↦ map skipped sqls ]
      ]

  replay-statement_calls :
      (sqls : List String) (i : ℕ) (pre : List QueryResult)
      → length pre ≡ i
      → replay
          (statement_calls is_blank execute c run_id confirm_unsafe_at i sqls)
          (pre ++ map pending sqls)
        ≡ pre ++ settled i sqls
  unfolding replay replay_call statement_calls settled stop_calls outcome_of
  replay-statement_calls [] i pre h = refl
  replay-statement_calls (sql ∷ sqls) i pre h =
      elim (Attempt-cases (execute i sql (option_beq (some i) confirm_unsafe_at))) [
        | inl (d, e) ↦
            let r = ok_result c sql d in
            let rest = statement_calls is_blank execute c run_id confirm_unsafe_at (suc i) sqls in
            rw (statement_calls, settled, e)
              (ap (replay rest) (
                  write_at-twice pre i (running sql) r (pending sql) (map pending sqls) h
                  ∙ sym (append_assoc pre (r ∷ []) (map pending sqls)))
                ∙ replay-statement_calls sqls (suc i) (pre ++ r ∷ [])
                    (omega (arith, length-append pre (r ∷ [])))
                ∙ append_assoc pre (r ∷ []) (settled (suc i) sqls))
        | inr (f, e) ↦ elim (Option-cases (unsafe_details f)) [
          | inr (u, k) ↦
              rw (statement_calls, settled, e, stop_calls, outcome_of, k)
                (write_at-twice pre i (running sql) (pending sql) (pending sql) (map pending sqls)
                  h)
          | inl k ↦ elim (Bool-cases (is_query_abort f)) [
            | inl a ↦
                rw (statement_calls, settled, e, stop_calls, outcome_of, k, a)
                  (ap (λ l. skip_from_index l (suc i))
                      (write_at-twice pre i (running sql) (cancelled sql) (pending sql)
                        (map pending sqls) h)
                    ∙ skip_from_index-append pre (cancelled sql) sqls i h)
            | inr a ↦
                rw (statement_calls, settled, e, stop_calls, outcome_of, k, a)
                  (let r = error (error_message is_blank f "Query failed") sql in
                    ap (λ l. skip_from_index l (suc i))
                      (write_at-twice pre i (running sql) r (pending sql) (map pending sqls) h)
                    ∙ skip_from_index-append pre r sqls i h)
          ]
        ]
      ]

  replay-body :
      (controller : Option ℕ) (i : ℕ) (sqls : List String) (pre rs : List QueryResult)
      → length pre ≡ i
      → rs ≡ pre ++ map pending sqls
      → replay (set_controller none ∷ set_running false ∷ []) (
          replay
            (set_controller controller
              ∷ set_running true
              ∷ statement_calls is_blank execute c run_id confirm_unsafe_at i sqls)
            rs)
        ≡ pre ++ settled i sqls
  unfolding replay replay_call
  replay-body controller i sqls pre rs l h =
      ap (replay (statement_calls is_blank execute c run_id confirm_unsafe_at i sqls)) h
      ∙ replay-statement_calls sqls i pre l

  -- A batch on a run whose statements from `start_at` on are pending leaves the results before alone, the
  -- tab not running, and no controller for it. Of the statements from `start_at` on, those up to the first
  -- that fails are ok with their data. If that one has to be confirmed, it and the ones after it are
  -- pending; otherwise it is cancelled or has its error, and the ones after it are skipped.
  pub run_statement_batch-settled :
      (tab_id : String) (s : IdeState) (run : ResultRun) (controller : Option ℕ) (start_at : ℕ)
      (sqls : List String) (pre : List QueryResult)
      → run_named s tab_id run_id ≡ some run
      → length pre ≡ start_at
      → run.results ≡ pre ++ map pending (drop start_at sqls)
      → let calls =
          run_statement_batch is_blank execute c run_id confirm_unsafe_at controller start_at
            sqls in
        let s' = play tab_id run_id calls s in
        ((run' : ResultRun) × (run_named s' tab_id run_id ≡ some run')
          × (run'.results ≡ pre ++ settled start_at (drop start_at sqls)))
        × (lookup tab_id s'.running_tabs ≡ some false)
        × (lookup tab_id s'.abort_controllers ≡ none)
  unfolding run_statement_batch
  run_statement_batch-settled tab_id s run controller start_at sqls pre e l h =
      let left = drop start_at sqls in
      let body =
        set_controller controller
        ∷ set_running true
        ∷ statement_calls is_blank execute c run_id confirm_unsafe_at start_at left in
      let rest = set_controller none ∷ set_running false ∷ [] in
      let (run', f, k) = play-run_named tab_id run_id (body ++ rest) s run e in
      let ends : play tab_id run_id (body ++ rest) s
          ≡ play tab_id run_id rest (play tab_id run_id body s) =
        play-append tab_id run_id body rest s in
      (
        (
          run',
          f,
          k
              ∙ replay-append body rest run.results
              ∙ replay-body controller start_at left pre run.results l h,
        ),
        ap (λ q. lookup tab_id q.running_tabs) ends
            ∙ play-rest_running tab_id run_id (play tab_id run_id body s),
        ap (λ q. lookup tab_id q.abort_controllers) ends
            ∙ play-rest_controller tab_id run_id (play tab_id run_id body s),
      )
