-- ===== src/Execution/Terminal.antt =====
-- A batch that nothing interrupts leaves no statement open.
use sqlwarden.Execution.Play.{play}
use sqlwarden.Store.Laws.Runs.{run_named}
use sqlwarden.Execution.Settled.{settled, outcome_of, run_statement_batch-settled}
use sqlwarden.Common.{
  suc, none, some, [], ◌∷◌, List, String, Bool, ℕ, if◌then◌else◌, Option, ◌≡◌, length, option_beq,
  arith, map, nat_eq, refl, inl, inr, Bool-cases, string_eq, true, All, subst, sym, ap, ◌∙◌,
}
use sqlwarden.Api.{ResultSet}
use sqlwarden.Store.State.{error, cancelled, skipped, is_terminal, IdeState, ResultRun, pending}
use sqlwarden.Execution.Failure.{
  Attempt, threw, Failure, is_query_abort, error_message, Attempt-cases,
}
use sqlwarden.Execution.Batch.{ok_result, unsafe_details, run_statement_batch}

All-skipped : (sqls : List String) → All (λ r. is_terminal r ≡ true) (map skipped sqls)
unfolding is_terminal
All-skipped [] = tt
All-skipped (q ∷ qs) = (refl, All-skipped qs)

length-map_skipped : (sqls : List String) → length (map skipped sqls) ≡ length sqls
length-map_skipped [] = refl
length-map_skipped (q ∷ qs) = omega (arith, length-map_skipped qs)

module _ (is_blank : String → Bool) (execute : ℕ → String → Bool → Attempt ResultSet) (c : ℕ)
    (run_id : String) (confirm_unsafe_at : Option ℕ) where
  if_ended :
      (e : Failure) (sql : String)
      → is_terminal (
          if is_query_abort e
          then cancelled sql
          else error (error_message is_blank e "Query failed") sql)
        ≡ true
  unfolding is_terminal
  if_ended e sql = elim (Bool-cases (is_query_abort e)) [
    | inl a ↦ rw (a) refl
    | inr a ↦ rw (a) refl
  ]

  settled-IsTerminal :
      (sqls : List String) (i : ℕ)
      → ((j : ℕ) (sql : String) (b : Bool) (e : Failure)
          → execute j sql b ≡ threw e
          → unsafe_details e ≡ none)
      → All (λ r. is_terminal r ≡ true) (settled is_blank execute c run_id confirm_unsafe_at i sqls)
        × (length (settled is_blank execute c run_id confirm_unsafe_at i sqls) ≡ length sqls)
  unfolding settled outcome_of is_terminal
  settled-IsTerminal [] i h = (tt, refl)
  settled-IsTerminal (sql ∷ sqls) i h =
      elim (Attempt-cases (execute i sql (option_beq (some i) confirm_unsafe_at))) [
        | inl (d, e) ↦
            let (a, l) = settled-IsTerminal sqls (suc i) h in
            rw (settled, e) ((unfold ok_result in refl, a), omega (arith, l))
        | inr (f, e) ↦
            let k = h i sql (option_beq (some i) confirm_unsafe_at) f e in
            rw (settled, e, outcome_of, k)
              ((if_ended f sql, All-skipped sqls), omega (arith, length-map_skipped sqls))
      ]

  -- A batch of a new run, unless one of its statements has to be confirmed, leaves a terminal result for
  -- each statement, however the statements end.
  pub run_statement_batch-IsTerminal :
      (tab_id : String) (s : IdeState) (run : ResultRun) (controller : Option ℕ)
      (sqls : List String)
      → run_named s tab_id run_id ≡ some run
      → run.results ≡ map pending sqls
      → ((j : ℕ) (sql : String) (b : Bool) (e : Failure)
          → execute j sql b ≡ threw e
          → unsafe_details e ≡ none)
      → let calls =
          run_statement_batch is_blank execute c run_id confirm_unsafe_at controller 0 sqls in
        (run' : ResultRun) × (run_named (play tab_id run_id calls s) tab_id run_id ≡ some run')
        × All (λ r. is_terminal r ≡ true) run'.results
        × (length run'.results ≡ length sqls)
  run_statement_batch-IsTerminal tab_id s run controller sqls e h safe =
      let out =
        run_statement_batch-settled is_blank execute c run_id confirm_unsafe_at tab_id s run
          controller 0 sqls [] e refl h in
      let (run', f, k) = out.0 in
      let (a, l) = settled-IsTerminal sqls 0 safe in
      (run', f, subst (λ rs. All (λ r. is_terminal r ≡ true) rs) (sym k) a, ap length k ∙ l)
