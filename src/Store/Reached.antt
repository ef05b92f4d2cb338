-- ===== src/Store/Reached.antt =====
-- The states that the editor can reach, and what is true of all of them.
use sqlwarden.Store.Sessions.{
  set_active_workspace, set_connection_status, set_node_expanded, collapse_all_nodes,
  set_maximized_pane, set_active_activity, set_sidebar_collapsed, set_session, clear_session,
  sync_sessions,
}
use sqlwarden.Store.Panes.{
  focus_group, set_dragging_tab, set_focus_editor_request, set_pending_jump,
}
use sqlwarden.Store.Valid.Groups.{is_listed}
use sqlwarden.Layout.Tree.{LayoutNode}
use sqlwarden.Store.Valid.Opening.{IsOwn}
use sqlwarden.Store.Runs.{
  abandon_pending_run_confirmation, update_runs, close_run_tab, put_selection, begin_run,
  evict_runs, set_run_statement_result, mark_run_remaining_skipped, set_tab_running,
  set_tab_controller, set_pending_confirmation, clear_pending_confirmation, set_selected_run,
  set_selected_index_in_run,
}
use sqlwarden.Store.Valid.{IsValid, Fits}
use sqlwarden.Store.Actions.{
  Action, step, step-IsValid, IsAllowed, open_tabs, open_tabs_to_side, ensure_tabs, open_consoles,
  close_tabs, close_tab_instances, rename_tabs, update_content, update_etag, set_connection,
  activate_tab, move_tabs, split_tabs, split_tabs_to_edge, set_sizes, set_status, sync_all_sessions,
  evict, set_result, skip_remaining, set_controller, abandon_confirmation, close_run, select_index,
}
use sqlwarden.Store.Consoles.Named.{IsConsole, HasConsoles, Keeps, HasConsoles-AreConsoles, All-map}
use sqlwarden.Store.Consoles.Keeping.{
  open_tab-Keeps, open_tab_to_side-Keeps, ensure_tab-Keeps, close_tab-Keeps,
  close_tab_instance-Keeps, set_active_tab-tabs, move_tab-Keeps, split_active_tab-tabs,
  split_tab_to_edge-tabs, set_split_sizes-tabs, open_console-Keeps,
}
use sqlwarden.Store.Persist.Migrated.{restore, migrate-IsValid}
use sqlwarden.Store.Persist.{partialize, migrate, PersistedState}
use sqlwarden.Store.State.{IdeState, EditorTab, initial_state, ResultRun}
use sqlwarden.Store.Tabs.{
  rename_file, change_content, change_etag, change_connection, rename_tab_by_file_id,
  update_tab_content, is_file, update_tab_etag, set_tab_connection,
}
use sqlwarden.Common.{
  ℕ, lookup, IsDistinct, String, subst, ◌≡◌, if_both, map, Option, List, arith, some, [], ◌==◌,
  get_or_else, ◌&&◌, string_eq, true, option_beq, nat_eq, sym, none,
}

-- The callers open a tab under an id that is not open, or is open in the workspace of the tab; and an id
-- like that of a console is given to consoles alone.
abbrev pub IsPermitted : IdeState → Action → Type 0
IsPermitted s (open_tabs tab id) = IsOwn s.tabs tab × IsConsole tab
IsPermitted s (open_tabs_to_side tab id) = IsOwn s.tabs tab × IsConsole tab
IsPermitted s (ensure_tabs tab id) = IsOwn s.tabs tab × IsConsole tab
IsPermitted s a = Unit

-- A version without layouts, in which no two tabs share an id, the active tab of a workspace is one of
-- its tabs, and the tabs with ids of consoles are consoles of the workspaces that the ids name.
pub record IsOldVersion (old : PersistedState) : Type 0 where
  pub distinct : IsDistinct (map (λ t. t.id) (get_or_else old.tabs []))
  pub active_listed :
      (ws : ℕ) (t : String)
      → lookup ws (get_or_else old.active_tab_ids []) ≡ some t
      → is_listed (get_or_else old.tabs []) ws t ≡ true
  pub consoles : HasConsoles (get_or_else old.tabs [])

-- States reached from the initial one, or from the migration of an older version, by permitted actions and
-- by reloading what was persisted.
pub data Reach : IdeState → Type 0 where
  start : Reach initial_state
  migrated :
      (print : ℕ → String) (old : PersistedState) {new : PersistedState}
      → IsOldVersion old
      → migrate print (some old) 0 ≡ some new
      → Reach (restore new)
  next : {s r : IdeState} → Reach s → (a : Action) → IsPermitted s a → step s a ≡ some r → Reach r
  reload : {s : IdeState} → Reach s → Reach (restore (partialize s))

-- What is true of each of them.
pub record IsReached (s : IdeState) : Type 0 where
  pub valid : IsValid s
  pub consoles : HasConsoles s.tabs

IsPermitted-IsAllowed :
    (s : IdeState) (a : Action) → HasConsoles s.tabs → IsPermitted s a → IsAllowed s a
IsPermitted-IsAllowed s (open_tabs tab id) h ok = ok.0
IsPermitted-IsAllowed s (open_tabs_to_side tab id) h ok = ok.0
IsPermitted-IsAllowed s (ensure_tabs tab id) h ok = ok.0
IsPermitted-IsAllowed s (open_consoles ws y c d id) h ok = HasConsoles-AreConsoles s.tabs ws h
IsPermitted-IsAllowed s a h ok = tt

module _ (x : EditorTab) (p : IsConsole x) where
  rename_file-IsConsole : (f : ℕ) (name : String) → IsConsole (rename_file f name x)
  unfolding rename_file
  rename_file-IsConsole f name =
      if_both IsConsole (is_file x.kind && option_beq x.file_id (some f)) p p

  change_content-IsConsole :
      (t c : String) (y : Option (List ℕ)) → IsConsole (change_content t c y x)
  unfolding change_content
  change_content-IsConsole t c y = if_both IsConsole (x.id == t) p p

  change_etag-IsConsole : (t e : String) → IsConsole (change_etag t e x)
  unfolding change_etag
  change_etag-IsConsole t e = if_both IsConsole (x.id == t) p p

  change_connection-IsConsole :
      (t : String) (c : ℕ) (d : Option String) → IsConsole (change_connection t c d x)
  unfolding change_connection
  change_connection-IsConsole t c d = if_both IsConsole (x.id == t) p p

update_runs-tabs :
    (s : IdeState) (t : String) (f : List ResultRun → List ResultRun)
    → (update_runs s t f).tabs ≡ s.tabs
unfolding update_runs
update_runs-tabs s t f = ground arith

abandon-tabs : (s : IdeState) (t : String) → (abandon_pending_run_confirmation s t).tabs ≡ s.tabs
unfolding abandon_pending_run_confirmation update_runs
abandon-tabs s t = ground arith

close_run_tab-tabs : (s : IdeState) (t r : String) → (close_run_tab s t r).tabs ≡ s.tabs
unfolding close_run_tab put_selection
close_run_tab-tabs s t r = ground arith

-- A permitted action keeps the consoles.
step-Keeps : (s : IdeState) (a : Action) → IsPermitted s a → HasConsoles s.tabs → Keeps (step s a)
unfolding step rename_tab_by_file_id update_tab_content update_tab_etag set_tab_connection
    focus_group set_dragging_tab set_focus_editor_request set_pending_jump set_active_workspace
    set_connection_status set_node_expanded collapse_all_nodes set_maximized_pane
    set_active_activity set_sidebar_collapsed set_session clear_session sync_sessions begin_run
    evict_runs set_run_statement_result mark_run_remaining_skipped set_tab_running
    set_tab_controller set_pending_confirmation clear_pending_confirmation set_selected_run
    set_selected_index_in_run
step-Keeps s (open_tabs tab id) ok h = open_tab-Keeps s tab id h ok.1
step-Keeps s (open_tabs_to_side tab id) ok h = open_tab_to_side-Keeps s tab id h ok.1
step-Keeps s (ensure_tabs tab id) ok h = ensure_tab-Keeps s tab id h ok.1
step-Keeps s (close_tabs t) ok h = close_tab-Keeps s t h
step-Keeps s (close_tab_instances g t) ok h = close_tab_instance-Keeps s g t h
step-Keeps s (rename_tabs f name) ok h =
    All-map IsConsole (rename_file f name) s.tabs (λ x q. rename_file-IsConsole x q f name) h
step-Keeps s (update_content t c y) ok h =
    All-map IsConsole (change_content t c y) s.tabs (λ x q. change_content-IsConsole x q t c y) h
step-Keeps s (update_etag t e) ok h =
    All-map IsConsole (change_etag t e) s.tabs (λ x q. change_etag-IsConsole x q t e) h
step-Keeps s (set_connection t c d) ok h =
    All-map IsConsole (change_connection t c d) s.tabs
      (λ x q. change_connection-IsConsole x q t c d) h
step-Keeps s (activate_tab g t) ok h = subst HasConsoles (sym (set_active_tab-tabs s g t)) h
step-Keeps s (move_tabs f t g u p') ok h = move_tab-Keeps s f t g u p' h
step-Keeps s (split_tabs ws g t d id) ok h =
    subst HasConsoles (sym (split_active_tab-tabs s ws g t d id)) h
step-Keeps s (split_tabs_to_edge ws t side id) ok h =
    subst HasConsoles (sym (split_tab_to_edge-tabs s ws t side id)) h
step-Keeps s (set_sizes ws id sizes) ok h =
    subst HasConsoles (sym (set_split_sizes-tabs s ws id sizes)) h
step-Keeps s (set_status c none) ok h = h
step-Keeps s (set_status c (some st)) ok h = h
step-Keeps s (sync_all_sessions b none) ok h = h
step-Keeps s (sync_all_sessions b (some scope)) ok h = h
step-Keeps s (evict t ids) ok h = subst HasConsoles (sym (update_runs-tabs s t _)) h
step-Keeps s (set_result t r i q) ok h = subst HasConsoles (sym (update_runs-tabs s t _)) h
step-Keeps s (skip_remaining t r i) ok h = subst HasConsoles (sym (update_runs-tabs s t _)) h
step-Keeps s (set_controller t none) ok h = h
step-Keeps s (set_controller t (some c)) ok h = h
step-Keeps s (abandon_confirmation t) ok h = subst HasConsoles (sym (abandon-tabs s t)) h
step-Keeps s (close_run t r) ok h = subst HasConsoles (sym (close_run_tab-tabs s t r)) h
step-Keeps s (select_index t r i) ok h = subst HasConsoles (sym (update_runs-tabs s t _)) h
step-Keeps s (open_consoles ws y c d id) ok h = open_console-Keeps s ws y c d id h
step-Keeps s a ok h = h

restore-IsValid : (s : IdeState) → IsValid s → IsValid (restore (partialize s))
unfolding restore partialize
restore-IsValid s v = record { layouts = v.layouts; distinct = v.distinct }

empty-AllFit : (ws : ℕ) (n : LayoutNode) → lookup {V = LayoutNode} ws [] ≡ some n → Fits [] ws n
unfolding lookup
empty-AllFit ws n e = cc

pub initial-IsValid : IsValid initial_state
initial-IsValid = record { layouts = λ ws n e. empty-AllFit ws n e; distinct = tt }

restore-HasConsoles :
    (s : IdeState) → HasConsoles s.tabs → HasConsoles (restore (partialize s)).tabs
unfolding restore partialize
restore-HasConsoles s h = h

-- The outcome of a migration has such tabs.
abbrev KeepsTabs : Option PersistedState → Type 0
KeepsTabs none = Unit
KeepsTabs (some p) = HasConsoles (get_or_else p.tabs [])

-- The migration of an older version is such a store.
migrated-IsReached :
    (print : ℕ → String) (old new : PersistedState)
    → IsOldVersion old
    → migrate print (some old) 0 ≡ some new
    → IsReached (restore new)
unfolding migrate restore
migrated-IsReached print old new v e =
    let (made, f, w, _) = migrate-IsValid print old v.distinct v.active_listed in
    let same : made ≡ new = ground (arith, e, f) in
    record {
      valid = subst (λ p. IsValid (restore p)) same w;
      consoles = subst KeepsTabs e v.consoles;
    }

-- In every state that is reached from the initial one, or from what the migration makes of an older
-- version, by actions and by reloads of the window, each layout is normal with sound panes, it shows
-- only open tabs of its own workspace, no two tabs share an id, and every tab with the id of a console is
-- a console of the workspace that the id names. A tab that an action opens, other than a new console,
-- has an id that is not open or is open in the workspace of the tab, and the id of a console only if it
-- is that console. In the older version no two tabs share an id, the active tab of a workspace is one of
-- its tabs, and the tabs with ids of consoles are those consoles.
pub Reach-IsReached : {s : IdeState} → Reach s → IsReached s
Reach-IsReached start = record { valid = initial-IsValid; consoles = tt }
Reach-IsReached (migrated print old {new} v e) = migrated-IsReached print old new v e
Reach-IsReached (next {s = s} reached a p e) =
    let before = Reach-IsReached reached in
    let allowed = IsPermitted-IsAllowed s a before.consoles p in
    let (q, f, w) = step-IsValid s a allowed before.valid in
    record {
      valid = subst IsValid (ground (arith, e, f)) w;
      consoles = subst Keeps e (step-Keeps s a p before.consoles);
    }
Reach-IsReached (reload {s = s} reached) =
    let before = Reach-IsReached reached in
    record {
      valid = restore-IsValid s before.valid;
      consoles = restore-HasConsoles s before.consoles;
    }
