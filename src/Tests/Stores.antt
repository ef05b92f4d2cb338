-- ===== src/Tests/Stores.antt =====
-- A store with one tab, its runs and its session.
use sqlwarden.Store.Laws.Focus.{open_tab-shown}
use sqlwarden.Layout.Flat.{shows}
use sqlwarden.Store.Laws.Tabs.{Released, close_tab_instance-Released, close_tab-Released}
use sqlwarden.Layout.Tabs.{
  set_active, remove_tab, activate, remove_tab_from_group, remove_tab_from, add_tab, remove_tab_in,
  drop_tab, add_tab_to, neighbour,
}
use sqlwarden.Store.Laws.Selection.{IsSelection, close_run_tab-IsSelection}
use sqlwarden.Store.Laws.Sessions.{sync_sessions-lookup}
use sqlwarden.Store.Runs.{close_run_tab, set_run_statement_result, mark_run_remaining_skipped}
use sqlwarden.Store.Sessions.{sync_sessions}
use sqlwarden.Store.Valid.{IsValid}
use sqlwarden.Store.Tabs.{
  close_tab_instance, close_tab, open_tab, with_layout, release_tab, refocus, show_in_place,
  with_tab, is_open,
}
use sqlwarden.Store.Actions.{step, open_tabs, step-IsValid}
use sqlwarden.Store.Reached.{initial-IsValid, Reach, start, next, IsReached, Reach-IsReached}
use sqlwarden.Store.Consoles.Named.{IsConsole, unprefixed-IsConsole}
use sqlwarden.Store.Laws.Runs.{
  run_named, result_at, result_at-mark_run_remaining_skipped, result_at-set_run_statement_result,
}
use sqlwarden.Common.{
  strip_prefix, [], ◌∷◌, none, some, lookup, ℕ, ◌≡◌, insert, nat_eq, refl, ◌==◌, inl, arith, eq_iff,
  string_eq, erase, true, false, String, if◌then◌else◌,
}
use sqlwarden.Layout.Tree.{
  collapse, keep_full, is_empty_group, first_group, LayoutNode, group, create_group, find_group,
  all_groups, map_groups, normalize, split, row, cons, nil,
}
use sqlwarden.Store.State.{
  IdeState, EditorTab, initial_state, QueryResult, ResultRun, TabKind, ensure_workspace_layout,
  focused_group, active_tab_id,
}

abbrev pub sample_tab : EditorTab
sample_tab = record {
  id = "t";
  workspace_id = 1;
  title = "Query";
  kind = TabKind.scratch;
  subtitle = none;
  connection_id = some 7;
  driver = none;
  file_id = none;
  file_media_type = none;
  file_kind = none;
  file_size_bytes = none;
  object_ref = none;
  diagram_target = none;
  etag = none;
  is_dirty = none;
  content = "";
  y_state = none;
  y_snapshot = none;
}

abbrev blank_layout : LayoutNode
blank_layout = group (create_group "g1" [] none)

abbrev opened : IdeState
opened = record initial_state {
  tabs = sample_tab ∷ [];
  layout = (1, group (record { id = "g1"; tab_ids = "t" ∷ []; active_tab_id = some "t" })) ∷ [];
  active_group_id = (1, "g1") ∷ [];
}

opened-step : step initial_state (open_tabs sample_tab "g1") ≡ some opened
unfolding step open_tab ensure_workspace_layout show_in_place lookup insert with_tab create_group
    set_active activate add_tab add_tab_to map_groups
opened-step = refl

sample_tab-IsConsole : IsConsole sample_tab
unfolding strip_prefix
sample_tab-IsConsole = unprefixed-IsConsole sample_tab refl

opened-Reach : Reach opened
opened-Reach = next start (open_tabs sample_tab "g1") ((λ h. cc), sample_tab-IsConsole) opened-step

step-IsValid_example :
    (r : IdeState) × (step initial_state (open_tabs sample_tab "g1") ≡ some r) × IsValid r
step-IsValid_example =
    step-IsValid initial_state (open_tabs sample_tab "g1") (λ h. cc) initial-IsValid

Reach-IsReached_example : IsReached opened
Reach-IsReached_example = Reach-IsReached opened-Reach

abbrev closed : IdeState
closed = record initial_state { layout = (1, blank_layout) ∷ []; active_group_id = (1, "g1") ∷ [] }

close_tab-Released_example :
    Released opened "t" closed
    × ((ws : ℕ) (n : LayoutNode) → lookup ws closed.layout ≡ some n → shows n "t" ≡ false)
unfolding close_tab with_layout release_tab refocus focused_group find_group all_groups remove_tab
    remove_tab_in drop_tab map_groups normalize erase lookup insert create_group neighbour
close_tab-Released_example =
    close_tab-Released opened "t" closed (Reach-IsReached opened-Reach).valid refl

abbrev tab_pane : String → LayoutNode
tab_pane id = group (record { id = id; tab_ids = "t" ∷ []; active_tab_id = some "t" })

-- Two panes show the tab.
abbrev shown_twice : LayoutNode
shown_twice =
    split (record { id = "s"; orientation = row; sizes = none })
      (cons (tab_pane "g1") (cons (tab_pane "g2") nil))

abbrev twice : IdeState
twice = record opened { layout = (1, shown_twice) ∷ [] }

abbrev once : IdeState
once = record twice { layout = (1, tab_pane "g2") ∷ []; active_group_id = (1, "g2") ∷ [] }

close_tab_instance-Released_example :
    ((n' : LayoutNode) × (lookup 1 once.layout ≡ some n')
      × ((u : String) → shows n' u ≡ (if u == "t" then true else shows shown_twice u)))
    × (true ≡ true
        → (once.tabs ≡ twice.tabs)
          × (once.result_runs ≡ twice.result_runs)
          × (once.running_tabs ≡ twice.running_tabs)
          × (once.abort_controllers ≡ twice.abort_controllers)
          × (once.aborted ≡ twice.aborted))
    × (true ≡ false → Released twice "t" once)
unfolding close_tab_instance with_layout release_tab refocus focused_group find_group all_groups
    remove_tab_from_group remove_tab_from drop_tab map_groups normalize erase lookup insert
    create_group neighbour collapse keep_full is_empty_group first_group
close_tab_instance-Released_example =
    close_tab_instance-Released twice "g1" "t" sample_tab shown_twice once refl refl refl

open_tab-shown_example :
    (active_tab_id opened 1 ≡ some "t")
    × (is_open opened.tabs "t" ≡ true)
    × ((ws : ℕ) → (1 == ws) ≡ false → lookup ws opened.layout ≡ lookup ws initial_state.layout)
unfolding step open_tab ensure_workspace_layout show_in_place lookup insert with_tab create_group
    set_active activate add_tab add_tab_to map_groups
open_tab-shown_example =
    open_tab-shown initial_state sample_tab "g1" blank_layout "g1" opened refl refl refl

abbrev first_run : ResultRun
first_run = record {
  id = "r1";
  results = QueryResult.running "q1" ∷ QueryResult.pending "q2" ∷ [];
  selected_index = 0;
  created_at = 0;
  connection_id = some 7;
}

abbrev second_run : ResultRun
second_run = record first_run { id = "r2" }

abbrev pub with_runs : IdeState
with_runs = record opened {
  result_runs = ("t", first_run ∷ second_run ∷ []) ∷ [];
  selected_run_id = ("t", "r2") ∷ [];
  sessions = (7, "old") ∷ (8, "kept") ∷ [];
}

result_at-set_run_statement_result_example :
    result_at
      (set_run_statement_result with_runs "t" "r1" 0 (QueryResult.cancelled "q1"))
      "t"
      "r1"
      0
    ≡ some (QueryResult.cancelled "q1")
unfolding run_named lookup
result_at-set_run_statement_result_example =
    result_at-set_run_statement_result with_runs "t" "r1" 0 (QueryResult.cancelled "q1") first_run
      refl (omega arith) "t" "r1" 0

result_at-mark_run_remaining_skipped_example :
    result_at (mark_run_remaining_skipped with_runs "t" "r1" 1) "t" "r1" 1
    ≡ some (QueryResult.skipped "q2")
unfolding result_at run_named lookup
result_at-mark_run_remaining_skipped_example =
    result_at-mark_run_remaining_skipped with_runs "t" "r1" 1 "t" "r1" 1

close_run_tab-IsSelection_example :
    (lookup "t" (close_run_tab with_runs "t" "r2").result_runs ≡ some (first_run ∷ []))
    × IsSelection (first_run ∷ []) (lookup "t" (close_run_tab with_runs "t" "r2").selected_run_id)
unfolding lookup
close_run_tab-IsSelection_example =
    close_run_tab-IsSelection with_runs "t" "r2" (first_run ∷ second_run ∷ []) refl
      (λ id e. inl (ground (arith, eq_iff "r2" id)))

sync_sessions-lookup_example :
    lookup 7 (sync_sessions with_runs ((9, "new") ∷ []) (some (7 ∷ 9 ∷ []))).sessions ≡ none
unfolding lookup
sync_sessions-lookup_example =
    sync_sessions-lookup with_runs ((9, "new") ∷ []) (some (7 ∷ 9 ∷ [])) 7 (refl, tt)
