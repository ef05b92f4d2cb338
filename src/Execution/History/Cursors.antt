-- ===== src/Execution/History/Cursors.antt =====
-- Which cursors are closed for the results of runs (resultRunHistory.ts).
use sqlwarden.Execution.History.{cursor_of, close_run_cursors, close_evicted}
use sqlwarden.Common.{
  [], some, ◌∷◌, String, Option, List, ℕ, ◌++◌, or_else, ◌≡◌, ◌==◌, string_eq, arith, eq_iff, refl,
  nat_eq, Bool-cases, inl, inr, ◌∙◌, ◌≢◌, Option-cases, subst, sym, append_assoc,
}
use sqlwarden.Store.State.{
  OkResult, ResultRun, QueryResult, ok, idle, pending, running, error, cancelled, skipped, OkResult,
}

-- The result is ok and holds the cursor of the connection: its own one, or else the fallback.
abbrev pub HoldsCursor : Option ℕ → QueryResult → ℕ → String → Type 0
HoldsCursor fallback (ok page) c cursor_id =
    (page.result.query_cursor_id ≡ some cursor_id)
    × (cursor_id ≢ "")
    × (or_else page.connection_id fallback ≡ some c)
    × (c ≢ 0)
HoldsCursor fallback idle c cursor_id = ⊥
HoldsCursor fallback (pending sql) c cursor_id = ⊥
HoldsCursor fallback (running sql) c cursor_id = ⊥
HoldsCursor fallback (error message sql) c cursor_id = ⊥
HoldsCursor fallback (cancelled sql) c cursor_id = ⊥
HoldsCursor fallback (skipped sql) c cursor_id = ⊥

-- The list has the cursors that the results hold, in their order, each once for its result.
pub data Closes (fallback : Option ℕ) : List QueryResult → List (ℕ × String) → Type 0 where
  no_results : Closes fallback [] []
  keeps :
      {r : QueryResult} {rs : List QueryResult} {cursors : List (ℕ × String)}
      → ((c : ℕ) (cursor_id : String) → ¬ (HoldsCursor fallback r c cursor_id))
      → Closes fallback rs cursors
      → Closes fallback (r ∷ rs) cursors
  closes :
      {r : QueryResult} {rs : List QueryResult} {cursors : List (ℕ × String)} (c : ℕ)
      (cursor_id : String)
      → HoldsCursor fallback r c cursor_id
      → Closes fallback rs cursors
      → Closes fallback (r ∷ rs) ((c, cursor_id) ∷ cursors)

abbrev pub results_of : List ResultRun → List QueryResult
results_of [] = []
results_of (run ∷ runs) = run.results ++ results_of runs

module _ (fallback : Option ℕ) where
  ok-Closes :
      (page : OkResult) (rs : List QueryResult) (cursors : List (ℕ × String))
      → Closes fallback rs cursors
      → Closes fallback (ok page ∷ rs) (cursor_of fallback (ok page) ++ cursors)
  unfolding cursor_of
  ok-Closes page rs cursors h =
      let made : (own : List (ℕ × String))
          → cursor_of fallback (ok page) ≡ own
          → Closes fallback (ok page ∷ rs) (own ++ cursors)
          → Closes fallback (ok page ∷ rs) (cursor_of fallback (ok page) ++ cursors) =
        λ own e k. subst (λ l. Closes fallback (ok page ∷ rs) (l ++ cursors)) (sym e) k in
      elim (Option-cases page.result.query_cursor_id) [
        | inl e ↦
            made [] (rw (cursor_of, e) refl) (keeps (λ c u held. let q = sym e ∙ held.0 in cc) h)
        | inr (cursor_id, e) ↦ elim (Option-cases (or_else page.connection_id fallback)) [
          | inl f ↦
              made [] (rw (cursor_of, e, f) refl)
                (keeps (λ c u held. let q = sym f ∙ held.2 in cc) h)
          | inr (c, f) ↦ elim (Bool-cases (cursor_id == "")) [
            | inl z ↦ made [] (rw (cursor_of, e, f, z) refl) (
                keeps
                  (λ d u held.
                    let q = sym e ∙ held.0 in
                    let same : cursor_id ≡ u = cc in held.1 (sym same ∙ (eq_iff cursor_id "").0 z))
                  h)
            | inr z ↦ elim (Bool-cases (c == 0)) [
              | inl y ↦ made [] (rw (cursor_of, e, f, z, y) refl) (
                  keeps
                    (λ d u held.
                      let q = sym f ∙ held.2 in
                      let same : c ≡ d = cc in held.3 (sym same ∙ ground (arith, y)))
                    h)
              | inr y ↦ made ((c, cursor_id) ∷ []) (rw (cursor_of, e, f, z, y) refl) (
                  closes c cursor_id
                    (
                      e,
                      λ q. ground (arith, (eq_iff cursor_id "").1 q, z),
                      f,
                      λ q. ground (arith, q, y),
                    )
                    h)
            ]
          ]
        ]
      ]

  cursor_of-Closes :
      (r : QueryResult) (rs : List QueryResult) (cursors : List (ℕ × String))
      → Closes fallback rs cursors
      → Closes fallback (r ∷ rs) (cursor_of fallback r ++ cursors)
  unfolding cursor_of
  cursor_of-Closes idle rs cursors h = keeps (λ c u n. n) h
  cursor_of-Closes (pending sql) rs cursors h = keeps (λ c u n. n) h
  cursor_of-Closes (running sql) rs cursors h = keeps (λ c u n. n) h
  cursor_of-Closes (error message sql) rs cursors h = keeps (λ c u n. n) h
  cursor_of-Closes (cancelled sql) rs cursors h = keeps (λ c u n. n) h
  cursor_of-Closes (skipped sql) rs cursors h = keeps (λ c u n. n) h
  cursor_of-Closes (ok page) rs cursors h = ok-Closes page rs cursors h

  close_run_cursors-Closes :
      (rs rest : List QueryResult) (cursors : List (ℕ × String))
      → Closes fallback rest cursors
      → Closes fallback (rs ++ rest) (close_run_cursors fallback rs ++ cursors)
  unfolding close_run_cursors
  close_run_cursors-Closes [] rest cursors h = h
  close_run_cursors-Closes (r ∷ rs) rest cursors h =
      subst (Closes fallback (r ∷ rs ++ rest))
        (sym (append_assoc (cursor_of fallback r) (close_run_cursors fallback rs) cursors))
        (cursor_of-Closes r (rs ++ rest) (close_run_cursors fallback rs ++ cursors)
          (close_run_cursors-Closes rs rest cursors h))

  pub close_evicted-Closes :
      (runs : List ResultRun) → Closes fallback (results_of runs) (close_evicted fallback runs)
  unfolding close_evicted
  close_evicted-Closes [] = no_results
  close_evicted-Closes (run ∷ runs) =
      close_run_cursors-Closes run.results (results_of runs) (close_evicted fallback runs)
        (close_evicted-Closes runs)
