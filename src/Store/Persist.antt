-- ===== src/Store/Persist.antt =====
-- frontend/src/components/ide/useIdeStore.ts: what is persisted of the store, and the migration of an
-- older version of it. `print` stands for the printing of a number.
pub mod Migrated
use sqlwarden.Layout.Tree.{LayoutNode, migrate_to_layout}
use sqlwarden.Store.State.{IdeState, EditorTab, Pane}
use sqlwarden.Common.{
  ℕ, Bool, List, [], ◌∷◌, ◌++◌, Option, none, some, String, Dict, lookup, insert, get_or_else,
  nat_eq, leb, is_some, ◌&&◌, if◌then◌else◌, ◌<>◌,
}

-- A field that an older version may lack is an option.
pub record PersistedState : Type 0 where
  pub active_workspace_id : Option ℕ
  pub maximized_pane : Option Pane
  pub active_activity_id : String
  pub sidebar_collapsed : Bool
  pub layout : Option (Dict ℕ LayoutNode)
  pub active_group_id : Dict ℕ String
  pub expanded_nodes : Dict String Bool
  pub tabs : Option (List EditorTab)
  pub sessions : Dict ℕ String
  pub active_tab_ids : Option (Dict ℕ String)

unfoldable pub partialize : IdeState → PersistedState
partialize s = record {
  active_workspace_id = s.active_workspace_id;
  maximized_pane = s.maximized_pane;
  active_activity_id = s.active_activity_id;
  sidebar_collapsed = s.sidebar_collapsed;
  layout = some s.layout;
  active_group_id = s.active_group_id;
  expanded_nodes = s.expanded_nodes;
  tabs = some s.tabs;
  sessions = s.sessions;
  active_tab_ids = none;
}

-- `(byWs[tab.workspaceId] ??= []).push(tab.id)` for each tab.
unfoldable pub group_by_workspace : List EditorTab → Dict ℕ (List String) → Dict ℕ (List String)
group_by_workspace [] by_ws = by_ws
group_by_workspace (tab ∷ tabs) by_ws =
    group_by_workspace tabs (
      insert tab.workspace_id (get_or_else (lookup tab.workspace_id by_ws) [] ++ tab.id ∷ []) by_ws)

module _ (print : ℕ → String) where
  unfoldable pub migrated_group_id : ℕ → String
  migrated_group_id ws = "grp-mig-" <> print ws

  -- The loop over the workspaces: their layouts, and their focused panes.
  unfoldable pub migrate_layouts :
      Dict ℕ (List String) → Dict ℕ String → Dict ℕ LayoutNode → Dict ℕ LayoutNode
  migrate_layouts [] active layout = layout
  migrate_layouts ((ws, ids) ∷ rest) active layout =
      migrate_layouts rest active
        (insert ws (migrate_to_layout (migrated_group_id ws) ids (lookup ws active)) layout)

  unfoldable pub migrate_groups : Dict ℕ (List String) → Dict ℕ String → Dict ℕ String
  migrate_groups [] group_ids = group_ids
  migrate_groups ((ws, ids) ∷ rest) group_ids =
      migrate_groups rest (insert ws (migrated_group_id ws) group_ids)

  -- `none` is that nothing was persisted.
  unfoldable pub migrate : Option PersistedState → ℕ → Option PersistedState
  migrate none version = none
  migrate (some state) version =
      let by_ws = group_by_workspace (get_or_else state.tabs []) [] in
      let active = get_or_else state.active_tab_ids [] in
      if leb 1 version && is_some state.layout
      then some state
      else some (record state {
        layout = some (migrate_layouts by_ws active []);
        active_group_id = migrate_groups by_ws [];
        active_tab_ids = none;
      })
