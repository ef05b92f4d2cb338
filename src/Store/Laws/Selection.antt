-- ===== src/Store/Laws/Selection.antt =====
-- The selected run of a tab after one of its runs is closed.
use sqlwarden.Common.{
  zero, [], suc, List, ℕ, get_elem?, ◌≡◌, ◌≤◌, String, length, lookup, ◌==◌, some, arith, ◌∷◌,
  nat_eq, none, refl, eq_iff, Option-cases, inl, string_eq, inr, Option, any, Bool, find_index,
  true, not, filter, Bool-cases, false, ◌⊎◌, or_else, get_elem?-eq-none_zero, get_elem?-eq-none,
  option_eq, ◌-◌, subst, insert, lookup-insert_self, ap, ◌∙◌, sym,
}
use sqlwarden.Store.State.{IdeState, ResultRun}
use sqlwarden.Store.Runs.{fallback_run, reselect, put_selection, close_run_tab}

length-keep :
    (p : ResultRun → Bool) (runs : List ResultRun) (i : ℕ)
    → find_index p runs ≡ some i
    → i ≤ length (filter (λ run. not (p run)) runs)
length-keep p [] i e = cc
length-keep p (x ∷ xs) i e = elim (Bool-cases (p x)) [
  | inl h ↦ ground arith
  | inr h ↦ elim (Option-cases (find_index p xs)) [
    | inl f ↦ ground arith
    | inr (k, f) ↦ ground (arith, length-keep p xs k f)
  ]
]

any-get_elem? :
    (runs : List ResultRun) (i : ℕ) (run : ResultRun)
    → get_elem? runs i ≡ some run
    → any (λ x. x.id == run.id) runs ≡ true
any-get_elem? [] i run e = cc
any-get_elem? (x ∷ xs) zero run e = ground (arith, eq_iff x.id run.id)
any-get_elem? (x ∷ xs) (suc i) run e = ground (arith, any-get_elem? xs i run)

fallback_run-missing :
    (p : ResultRun → Bool) (runs : List ResultRun) (closed : Option ℕ)
    → find_index p runs ≡ closed
    → fallback_run (filter (λ run. not (p run)) runs) closed ≡ none
    → filter (λ run. not (p run)) runs ≡ []
unfolding fallback_run
fallback_run-missing p runs none e h = get_elem?-eq-none_zero (filter (λ run. not (p run)) runs) h
fallback_run-missing p runs (some zero) e h =
    get_elem?-eq-none_zero (filter (λ run. not (p run)) runs) (ground arith)
fallback_run-missing p runs (some (suc i)) e h =
    let l = get_elem?-eq-none (filter (λ run. not (p run)) runs) i (ground arith) in
    let k = length-keep p runs (suc i) e in ground arith

-- The selected run of a tab, if one is selected, is a run of the tab, unless the tab has none.
abbrev pub IsSelection : List ResultRun → Option String → Type 0
IsSelection runs selected =
    (id : String) → selected ≡ some id → (any (λ run. run.id == id) runs ≡ true) ⊎ (runs ≡ [])

any-keep :
    (runs : List ResultRun) (id run_id : String)
    → (id == run_id) ≡ false
    → any (λ run. run.id == id) runs ≡ true
    → any (λ run. run.id == id) (filter (λ run. not (run.id == run_id)) runs) ≡ true
any-keep [] id run_id d h = h
any-keep (x ∷ xs) id run_id d h =
    ground (arith, any-keep xs id run_id d, eq_iff x.id run_id, eq_iff x.id id)

fallback_run-found :
    (runs : List ResultRun) (closed : Option ℕ) (run : ResultRun)
    → fallback_run runs closed ≡ some run
    → any (λ x. x.id == run.id) runs ≡ true
unfolding fallback_run
fallback_run-found runs none run e = any-get_elem? runs 0 run e
fallback_run-found runs (some i) run e = any-get_elem? runs (i - 1) run e

abbrev close_in : String → List ResultRun → List ResultRun
close_in run_id runs = filter (λ run. not (run.id == run_id)) runs

reselect-IsSelection :
    (runs : List ResultRun) (selected : Option String) (run_id : String) (closed : Option ℕ)
    → find_index (λ run. run.id == run_id) runs ≡ closed
    → IsSelection runs selected
    → IsSelection
        (close_in run_id runs)
        (or_else (reselect selected (close_in run_id runs) run_id closed) selected)
unfolding reselect
reselect-IsSelection runs selected run_id closed f h id e =
    elim (Bool-cases (selected == some run_id)) [
      | inr d ↦
          let q : selected ≡ some id = ground arith in
          elim (h id q) [
            | inl k ↦ inl (
                any-keep runs id run_id
                  (ground (arith, eq_iff id run_id, option_eq.test_iff selected (some run_id))) k)
            | inr k ↦ inr (rw (k) refl)
          ]
      | inl d ↦ elim (Option-cases (fallback_run (close_in run_id runs) closed)) [
        | inl k ↦ inr (fallback_run-missing (λ run. run.id == run_id) runs closed f k)
        | inr (run, k) ↦
            let q : run.id ≡ id = ground arith in
            inl (
              subst (λ i. any (λ x. x.id == i) (close_in run_id runs) ≡ true) q
                (fallback_run-found (close_in run_id runs) closed run k))
      ]
    ]

put_selection-lookup :
    (s : IdeState) (tab_id : String) (choice : Option String)
    → (lookup tab_id (put_selection s tab_id choice).selected_run_id
        ≡ or_else choice (lookup tab_id s.selected_run_id))
      × ((put_selection s tab_id choice).result_runs ≡ s.result_runs)
unfolding put_selection
put_selection-lookup s tab_id none = (refl, refl)
put_selection-lookup s tab_id (some id) = (lookup-insert_self tab_id id s.selected_run_id, refl)

-- `closeRunTab` removes the runs with the id and nothing else of the tab, and a selection that named a
-- run of the tab still does, unless no run is left.
pub close_run_tab-IsSelection :
    (s : IdeState) (tab_id run_id : String) (runs : List ResultRun)
    → lookup tab_id s.result_runs ≡ some runs
    → IsSelection runs (lookup tab_id s.selected_run_id)
    → (lookup tab_id (close_run_tab s tab_id run_id).result_runs
        ≡ some (filter (λ run. not (run.id == run_id)) runs))
      × IsSelection
          (filter (λ run. not (run.id == run_id)) runs)
          (lookup tab_id (close_run_tab s tab_id run_id).selected_run_id)
unfolding close_run_tab
close_run_tab-IsSelection s tab_id run_id runs e h =
    let closed = find_index (λ run. run.id == run_id) runs in
    let choice = reselect (lookup tab_id s.selected_run_id) (close_in run_id runs) run_id closed in
    let next : IdeState = record s {
      result_runs = insert tab_id (close_in run_id runs) s.result_runs;
    } in
    let (p, q) = put_selection-lookup next tab_id choice in
    let same : put_selection next tab_id choice ≡ close_run_tab s tab_id run_id =
      rw (close_run_tab, e) refl in
    subst
      (λ r.
        (lookup tab_id r.result_runs ≡ some (close_in run_id runs))
        × IsSelection (close_in run_id runs) (lookup tab_id r.selected_run_id))
      same
      (
        ap (lookup tab_id) q ∙ lookup-insert_self tab_id (close_in run_id runs) s.result_runs,
        subst (IsSelection (close_in run_id runs)) (sym p)
            (reselect-IsSelection runs (lookup tab_id s.selected_run_id) run_id closed refl h),
      )
