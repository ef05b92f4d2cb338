-- ===== src/Tests/Persisted.antt =====
-- Consoles, and stores of an older version.
use sqlwarden.Store.Consoles.Fresh.{open_console-fresh}
use sqlwarden.Store.Consoles.{open_console, next_number, max_number, console_tab, show_console}
use sqlwarden.Store.Persist.Migrated.{migrate-IsValid, restore}
use sqlwarden.Store.Persist.{PersistedState, migrate}
use sqlwarden.Store.Valid.{IsValid}
use sqlwarden.Store.Valid.Groups.{is_listed}
use sqlwarden.Store.Tabs.{is_open}
use sqlwarden.Store.State.{
  EditorTab, initial_state, ensure_workspace_layout, active_tab_id, TabKind,
}
use sqlwarden.Layout.Tree.{LayoutNode, group, create_group, all_groups}
use sqlwarden.Common.{
  ℕ, String, [], ◌∷◌, ◌++◌, some, none, false, true, ◌≡◌, refl, any, includes, lookup, nat_eq,
  string_eq, print_number, arith, eq_iff,
}

-- Two tabs of workspace 1, the second one active; nothing was laid out.
abbrev old_tab : String → EditorTab
old_tab id = record {
  id = id;
  workspace_id = 1;
  title = "Query";
  kind = TabKind.file;
  subtitle = none;
  connection_id = none;
  driver = none;
  file_id = none;
  file_media_type = none;
  file_kind = none;
  file_size_bytes = none;
  object_ref = none;
  diagram_target = none;
  etag = none;
  is_dirty = none;
  content = "";
  y_state = none;
  y_snapshot = none;
}

abbrev old_state : PersistedState
old_state = record {
  active_workspace_id = some 1;
  maximized_pane = none;
  active_activity_id = "connections";
  sidebar_collapsed = false;
  layout = none;
  active_group_id = [];
  expanded_nodes = [];
  tabs = some (old_tab "file:1" ∷ old_tab "file:2" ∷ []);
  sessions = [];
  active_tab_ids = some ((1, "file:2") ∷ []);
}

migrate-IsValid_example :
    (new : PersistedState) × (migrate print_number (some old_state) 0 ≡ some new)
    × IsValid (restore new)
    × ((ws : ℕ) (t : String)
        → is_listed (old_tab "file:1" ∷ old_tab "file:2" ∷ []) ws t ≡ true
        → (n : LayoutNode) × (lookup ws (restore new).layout ≡ some n)
          × (any (λ g. includes g.tab_ids t) (all_groups n) ≡ true))
unfolding lookup
migrate-IsValid_example =
    migrate-IsValid print_number old_state (refl, (refl, tt))
      (λ ws t h. ground (arith, eq_iff "file:2" t))

-- The first console of a workspace that has no layout yet.
open_console-fresh_example :
    (tab : EditorTab) × (is_open [] tab.id ≡ false)
    × ((show_console initial_state
          (console_tab 1 1 [] none none)
          (group (create_group "g1" [] none))
          "g1").tabs
        ≡ [] ++ tab ∷ [])
    × (active_tab_id
          (show_console initial_state
            (console_tab 1 1 [] none none)
            (group (create_group "g1" [] none))
            "g1")
          1
        ≡ some tab.id)
unfolding open_console next_number max_number ensure_workspace_layout create_group lookup
open_console-fresh_example =
    open_console-fresh initial_state 1 [] none none "g1" (group (create_group "g1" [] none)) "g1"
      (show_console initial_state (console_tab 1 1 [] none none) (group (create_group "g1" [] none))
        "g1")
      tt refl refl refl
