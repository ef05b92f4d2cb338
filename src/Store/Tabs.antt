-- ===== src/Store/Tabs.antt =====
-- frontend/src/components/ide/useIdeStore.ts: the actions that open, close and change tabs.
-- `none` is the TypeError of an action that reads `.id` of a missing first pane.
use Prim.Native.String
use sqlwarden.Common.{
  ℕ, Bool, true, false, not, ◌&&◌, List, [], ◌∷◌, ◌++◌, Option, none, some, String, if◌then◌else◌,
  ◌==◌, string_eq, nat_eq, option_eq, lookup, insert, erase, is_some, any, map, filter, includes,
  or_else, find, length, option_beq, get_or_else,
}
use sqlwarden.Layout.Tree.{LayoutNode, all_groups, first_group}
use sqlwarden.Layout.Tabs.{add_tab, remove_tab, remove_tab_from_group, set_active}
use sqlwarden.Layout.Splits.{place_tab_at_edge, Side}
use sqlwarden.Store.State.{
  IdeState, EditorTab, TabKind, scratch, file, connection, object, diagram, focused_group,
  ensure_workspace_layout,
}

-- `s.tabs.some((t) => t.id === tabId)`.
abbrev pub is_open : List EditorTab → String → Bool
is_open tabs tab_id = any (λ t. t.id == tab_id) tabs

abbrev pub tab_named : List EditorTab → String → Option EditorTab
tab_named tabs tab_id = find (λ t. t.id == tab_id) tabs

-- `exists ? s.tabs : [...s.tabs, tab]`.
unfoldable pub with_tab : List EditorTab → EditorTab → List EditorTab
with_tab tabs tab = if is_open tabs tab.id then tabs else tabs ++ tab ∷ []

-- The patch that shows the tab in the focused pane and makes it active.
unfoldable pub show_in_place : IdeState → EditorTab → LayoutNode → String → IdeState
show_in_place s tab n group_id = record s {
  tabs = with_tab s.tabs tab;
  layout = insert tab.workspace_id (set_active (add_tab n group_id tab.id none) tab.id) s.layout;
  active_group_id = insert tab.workspace_id group_id s.active_group_id;
}

unfoldable pub open_tab : IdeState → EditorTab → String → Option IdeState
open_tab s tab new_id = elim (ensure_workspace_layout s tab.workspace_id new_id) [
  | none ↦ none
  | some (n, group_id) ↦ some (show_in_place s tab n group_id)
]

unfoldable pub is_blank : LayoutNode → Bool
is_blank n = not (any (λ g. not (length g.tab_ids == 0)) (all_groups n))

unfoldable pub focus_key : String → String → String
focus_key group_id tab_id = String.◌++◌ group_id (String.◌++◌ ":" tab_id)

unfoldable pub show_to_side : IdeState → EditorTab → LayoutNode → String → IdeState
show_to_side s tab n new_id = record s {
  tabs = with_tab s.tabs tab;
  layout = insert tab.workspace_id (place_tab_at_edge n tab.id Side.right new_id) s.layout;
  active_group_id = insert tab.workspace_id new_id s.active_group_id;
  focus_editor_request = some (focus_key new_id tab.id);
}

-- One of its two branches asks for a new id, never both.
unfoldable pub open_tab_to_side : IdeState → EditorTab → String → Option IdeState
open_tab_to_side s tab new_id = elim (ensure_workspace_layout s tab.workspace_id new_id) [
  | none ↦ none
  | some (n, group_id) ↦
      some (if is_blank n then show_in_place s tab n group_id else show_to_side s tab n new_id)
]

-- The patch of `ensureTab`: the focus stays where it is.
unfoldable pub add_quietly : IdeState → EditorTab → LayoutNode → String → IdeState
add_quietly s tab n group_id = record s {
  tabs = s.tabs ++ tab ∷ [];
  layout = insert tab.workspace_id (add_tab n group_id tab.id none) s.layout;
  active_group_id =
      insert tab.workspace_id (get_or_else (lookup tab.workspace_id s.active_group_id) group_id)
        s.active_group_id;
}

unfoldable pub ensure_tab : IdeState → EditorTab → String → Option IdeState
ensure_tab s tab new_id =
    if is_open s.tabs tab.id
    then some s
    else elim (ensure_workspace_layout s tab.workspace_id new_id) [
      | none ↦ none
      | some (n, group_id) ↦ some (add_quietly s tab n group_id)
    ]

abbrev pub append_controller : Option ℕ → List ℕ → List ℕ
append_controller none log = log
append_controller (some c) log = log ++ c ∷ []

-- `s.abortControllers[tabId]?.abort()`, and the patch that forgets the tab.
unfoldable pub release_tab : IdeState → String → IdeState
release_tab s tab_id = record s {
  tabs = filter (λ t. not (t.id == tab_id)) s.tabs;
  result_runs = erase tab_id s.result_runs;
  running_tabs = erase tab_id s.running_tabs;
  abort_controllers = erase tab_id s.abort_controllers;
  pending_confirmations = erase tab_id s.pending_confirmations;
  selected_run_id = erase tab_id s.selected_run_id;
  aborted = append_controller (lookup tab_id s.abort_controllers) s.aborted;
}

-- The focused pane if the layout still has it, else the first.
unfoldable pub refocus : LayoutNode → Option String → Option String
refocus n focused = elim (focused_group n focused) [
  | some g ↦ focused
  | none ↦ elim (first_group n) [ none ↦ none | some g ↦ some g.id ]
]

unfoldable pub with_layout : IdeState → ℕ → LayoutNode → Option IdeState
with_layout s ws n = elim (refocus n (lookup ws s.active_group_id)) [
  | none ↦ none
  | some id ↦
      some (record s {
        layout = insert ws n s.layout;
        active_group_id = insert ws id s.active_group_id;
      })
]

unfoldable pub close_tab : IdeState → String → Option IdeState
close_tab s tab_id = elim (tab_named s.tabs tab_id) [
  | none ↦ some (release_tab s tab_id)
  | some closed ↦ elim (lookup closed.workspace_id s.layout) [
    | none ↦ some (release_tab s tab_id)
    | some n ↦ with_layout (release_tab s tab_id) closed.workspace_id (remove_tab n tab_id)
  ]
]

unfoldable pub close_tab_instance : IdeState → String → String → Option IdeState
close_tab_instance s group_id tab_id = elim (tab_named s.tabs tab_id) [
  | none ↦ some s
  | some tab ↦ elim (lookup tab.workspace_id s.layout) [
    | none ↦ some s
    | some n ↦
        let next = remove_tab_from_group n group_id tab_id in
        let still_shown = any (λ g. includes g.tab_ids tab_id) (all_groups next) in
        with_layout (if still_shown then s else release_tab s tab_id) tab.workspace_id next
  ]
]

unfoldable pub is_file : TabKind → Bool
is_file file = true
is_file scratch = false
is_file connection = false
is_file object = false
is_file diagram = false

unfoldable pub rename_file : ℕ → String → EditorTab → EditorTab
rename_file file_id name t =
    if is_file t.kind && option_beq t.file_id (some file_id)
    then record t { title = name; subtitle = some name }
    else t

unfoldable pub rename_tab_by_file_id : IdeState → ℕ → String → IdeState
rename_tab_by_file_id s file_id name = record s { tabs = map (rename_file file_id name) s.tabs }

unfoldable pub change_content : String → String → Option (List ℕ) → EditorTab → EditorTab
change_content tab_id content y_snapshot t =
    if t.id == tab_id
    then record t {
      content = content;
      y_snapshot = or_else y_snapshot t.y_snapshot;
      is_dirty = if is_some t.etag && not (content == t.content) then some true else t.is_dirty;
    }
    else t

unfoldable pub update_tab_content : IdeState → String → String → Option (List ℕ) → IdeState
update_tab_content s tab_id content y_snapshot = record s {
  tabs = map (change_content tab_id content y_snapshot) s.tabs;
}

unfoldable pub change_etag : String → String → EditorTab → EditorTab
change_etag tab_id etag t =
    if t.id == tab_id then record t { etag = some etag; is_dirty = some false } else t

unfoldable pub update_tab_etag : IdeState → String → String → IdeState
update_tab_etag s tab_id etag = record s { tabs = map (change_etag tab_id etag) s.tabs }

-- `driver ? { driver } : {}`: an empty driver counts as none.
abbrev pub truthy_or : Option String → Option String → Option String
truthy_or none d = d
truthy_or (some v) d = if v == "" then d else some v

unfoldable pub change_connection : String → ℕ → Option String → EditorTab → EditorTab
change_connection tab_id connection_id driver t =
    if t.id == tab_id
    then record t { connection_id = some connection_id; driver = truthy_or driver t.driver }
    else t

unfoldable pub set_tab_connection : IdeState → String → ℕ → Option String → IdeState
set_tab_connection s tab_id connection_id driver = record s {
  tabs = map (change_connection tab_id connection_id driver) s.tabs;
}
