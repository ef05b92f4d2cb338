-- ===== src/Execution/History/Capped.antt =====
-- What beginning a run leaves of the runs of a tab (useBeginRun.ts).
use sqlwarden.Execution.History.Cursors.{Closes, results_of, close_evicted-Closes}
use sqlwarden.Execution.History.{use_begin_run, evict_oldest, runs_to_evict, close_evicted}
use sqlwarden.Common.{
  zero, [], suc, some, ◌∷◌, String, Option, List, ℕ, filter, length, ◌≤◌, includes, IsDistinct,
  get_or_else, ◌++◌, lookup, take, map, if◌then◌else◌, ◌-◌, drop, not, ltb, ◌≡◌, ◌==◌, string_eq,
  false, arith, eq_iff, refl, nat_eq, lookup-insert_self, Bool-cases, inl, inr, lookup-insert, true,
  beq_refl, ap, ◌∙◌, subst, sym,
}
use sqlwarden.Store.State.{IdeState, ResultRun}
use sqlwarden.Store.Runs.{begin_run, evict_runs, new_run, update_runs}

filter-skip_head :
    (a : String) (ids : List String) (runs : List ResultRun)
    → includes (map (λ run. run.id) runs) a ≡ false
    → filter (λ run. not (includes (a ∷ ids) run.id)) runs
      ≡ filter (λ run. not (includes ids run.id)) runs
filter-skip_head a ids [] h = refl
filter-skip_head a ids (x ∷ xs) h =
    ground (arith, filter-skip_head a ids xs, eq_iff a x.id, eq_iff x.id a)

filter-none : (runs : List ResultRun) → filter (λ run. not (includes [] run.id)) runs ≡ runs
filter-none [] = refl
filter-none (x ∷ xs) = ground (arith, filter-none xs)

-- Runs with distinct ids: dropping the ids of the first `k` drops the first `k`.
filter-drop :
    (k : ℕ) (runs : List ResultRun)
    → IsDistinct (map (λ run. run.id) runs)
    → filter (λ run. not (includes (map (λ r. r.id) (take k runs)) run.id)) runs ≡ drop k runs
filter-drop zero runs h = filter-none runs
filter-drop (suc k) [] h = refl
filter-drop (suc k) (x ∷ xs) (n, h) = ground (
  arith,
  filter-skip_head x.id (map (λ r. r.id) (take k xs)) xs n,
  filter-drop k xs h,
  eq_iff x.id x.id,
)

length-drop : (k : ℕ) (runs : List ResultRun) → length (drop k runs) ≡ length runs - k
length-drop zero runs = ground arith
length-drop (suc k) [] = ground arith
length-drop (suc k) (x ∷ xs) = ground (arith, length-drop k xs)

length-take : (k : ℕ) (runs : List ResultRun) → k ≤ length runs → length (take k runs) ≡ k
length-take zero runs h = refl
length-take (suc k) [] h = omega arith
length-take (suc k) (x ∷ xs) h = omega (arith, length-take k xs (omega arith))

evict_runs-lookup :
    (s : IdeState) (tab_id : String) (ids : List String) (all : List ResultRun) (j : String)
    → lookup tab_id s.result_runs ≡ some all
    → lookup j (evict_runs s tab_id ids).result_runs ≡ (
        if tab_id == j
        then some (filter (λ run. not (includes ids run.id)) all)
        else lookup j s.result_runs)
unfolding evict_runs update_runs
evict_runs-lookup s tab_id ids all j e =
    rw (e, update_runs)
      (lookup-insert tab_id j (filter (λ run. not (includes ids run.id)) all) s.result_runs)

-- What evicting leaves: the newest 50 runs of the tab, the cursors of the others closed.
abbrev IsCapped :
    IdeState → String → Option ℕ → List ResultRun → IdeState × List (ℕ × String) → Type 0
IsCapped s tab_id fallback all out =
    (lookup tab_id out.0.result_runs ≡ some (drop (length all - 50) all))
    × (length (drop (length all - 50) all) ≤ 50)
    × (out.1 ≡ close_evicted fallback (take (length all - 50) all))
    × ((j : String) → (tab_id == j) ≡ false → lookup j out.0.result_runs ≡ lookup j s.result_runs)

evict_oldest-IsCapped :
    (s : IdeState) (tab_id : String) (fallback : Option ℕ) (all : List ResultRun)
    → lookup tab_id s.result_runs ≡ some all
    → IsDistinct (map (λ run. run.id) all)
    → IsCapped s tab_id fallback all (evict_oldest s tab_id fallback)
unfolding evict_oldest runs_to_evict close_evicted
evict_oldest-IsCapped s tab_id fallback all e h =
    let k : ℕ = length all - 50 in
    let small : length (drop k all) ≤ 50 = omega (arith, length-drop k all) in
    elim (Bool-cases (ltb 0 k)) [
      | inl big ↦
          let t : runs_to_evict all ≡ take k all = rw (runs_to_evict, big) refl in
          let l : ltb 0 (length (take k all)) ≡ true = ground (arith, length-take k all) in
          let ids = map (λ r. r.id) (take k all) in
          rw (evict_oldest, e, t, l)
            (
              rw (evict_runs-lookup s tab_id ids all tab_id e, beq_refl tab_id)
                  (ap some (filter-drop k all h)),
              small,
              refl,
              λ j d. rw (evict_runs-lookup s tab_id ids all j e, d) refl,
            )
      | inr none_over ↦
          let z : k ≡ 0 = ground arith in
          let t : runs_to_evict all ≡ [] = rw (runs_to_evict, none_over) refl in
          rw (evict_oldest, e, t, z) (e, omega arith, refl, λ j d. refl)
    ]

-- Beginning a run with a new id, for a tab with an id that is not empty and with runs of distinct
-- ids, gives that id, appends the run to the tab's runs and keeps of these exactly the newest 50.
-- The cursors that are closed are those that the results of the other runs hold, in their order,
-- with their own connection or else the fallback; an empty cursor id and the connection 0 count as
-- none. The runs of the other tabs stay.
pub use_begin_run-capped :
    (s : IdeState) (tab_id : String) (sqls : List String) (fallback : Option ℕ) (run_id : String)
    (now : ℕ) (all : List ResultRun)
    → (tab_id == "") ≡ false
    → get_or_else (lookup tab_id s.result_runs) [] ++ new_run run_id sqls now fallback ∷ [] ≡ all
    → IsDistinct (map (λ run. run.id) all)
    → let (given, (s', cursors)) = use_begin_run s (some tab_id) sqls fallback run_id now in
      (given ≡ run_id)
      × (lookup tab_id s'.result_runs ≡ some (drop (length all - 50) all))
      × (length (drop (length all - 50) all) ≤ 50)
      × Closes fallback (results_of (take (length all - 50) all)) cursors
      × ((j : String) → (tab_id == j) ≡ false → lookup j s'.result_runs ≡ lookup j s.result_runs)
unfolding use_begin_run begin_run
use_begin_run-capped s tab_id sqls fallback run_id now all real e h =
    let begun = begin_run s tab_id sqls fallback run_id now in
    let found : lookup tab_id begun.result_runs ≡ some all =
      lookup-insert_self tab_id
        (get_or_else (lookup tab_id s.result_runs) [] ++ new_run run_id sqls now fallback ∷ [])
        s.result_runs
      ∙ ap some e in
    let (a, b, c, d) = evict_oldest-IsCapped begun tab_id fallback all found h in
    rw real (
      refl,
      a,
      b,
      subst (Closes fallback (results_of (take (length all - 50) all))) (sym c)
          (close_evicted-Closes fallback (take (length all - 50) all)),
      λ j n.
          d j n
          ∙ ground (
            arith,
            lookup-insert tab_id j
                (get_or_else (lookup tab_id s.result_runs) []
                  ++ new_run run_id sqls now fallback ∷ [])
                s.result_runs,
          ),
    )
