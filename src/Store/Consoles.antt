-- ===== src/Store/Consoles.antt =====
-- frontend/src/components/ide/useIdeStore.ts: `openConsole`, and the functions that make a tab.
-- The numbers of consoles stay below 2 ^ 53, from where on `parseInt` is not exact.
pub mod Fresh
pub mod Named
pub mod Keeping
use sqlwarden.Layout.Tabs.{add_tab, set_active}
use sqlwarden.Layout.Tree.{LayoutNode}
use sqlwarden.Store.State.{
  IdeState, EditorTab, TabKind, scratch, file, connection, object, diagram, ensure_workspace_layout,
}
use sqlwarden.Store.Tabs.{is_open}
use sqlwarden.Common.{
  ℕ, Bool, true, false, ◌&&◌, List, [], ◌∷◌, ◌++◌, Option, none, some, String, if◌then◌else◌, ◌==◌,
  nat_eq, string_eq, filter, insert, max, ◌+◌, ◌<>◌, print_number, whole_number, drop_digits,
  strip_prefix, ◌>>=◌,
}

-- ``scratch:${workspace.id}:${num}``
unfoldable pub console_id : ℕ → ℕ → String
console_id workspace_id num = "scratch:" <> (print_number workspace_id <> (":" <> print_number num))

-- The number of `/^scratch:\d+:(\d+)$/`.
unfoldable pub console_number : String → Option ℕ
console_number id = strip_prefix "scratch:" id >>= λ numbers.
    drop_digits numbers >>= λ rest. strip_prefix ":" rest >>= λ number. whole_number number

unfoldable pub is_scratch : TabKind → Bool
is_scratch scratch = true
is_scratch file = false
is_scratch connection = false
is_scratch object = false
is_scratch diagram = false

-- The `reduce` over the consoles.
unfoldable pub max_number : List EditorTab → ℕ → ℕ
max_number [] largest = largest
max_number (t ∷ tabs) largest =
    max_number tabs (elim (console_number t.id) [ none ↦ largest | some n ↦ max largest n ])

unfoldable pub next_number : IdeState → ℕ → ℕ
next_number s workspace_id =
    max_number (filter (λ t. t.workspace_id == workspace_id && is_scratch t.kind) s.tabs) 0 + 1

-- `driver ? { driver } : {}`.
unfoldable pub truthy : Option String → Option String
truthy none = none
truthy (some v) = if v == "" then none else some v

unfoldable pub console_tab : ℕ → ℕ → List ℕ → Option ℕ → Option String → EditorTab
console_tab workspace_id num y_state connection_id driver = record {
  id = console_id workspace_id num;
  workspace_id = workspace_id;
  title = "Console " <> print_number num;
  kind = scratch;
  subtitle = none;
  connection_id = connection_id;
  driver = truthy driver;
  file_id = none;
  file_media_type = none;
  file_kind = none;
  file_size_bytes = none;
  object_ref = none;
  diagram_target = none;
  etag = none;
  is_dirty = none;
  content = "";
  y_state = some y_state;
  y_snapshot = none;
}

unfoldable pub show_console : IdeState → EditorTab → LayoutNode → String → IdeState
show_console s tab n group_id = record s {
  tabs = if is_open s.tabs tab.id then s.tabs else s.tabs ++ tab ∷ [];
  layout = insert tab.workspace_id (set_active (add_tab n group_id tab.id none) tab.id) s.layout;
  active_group_id = insert tab.workspace_id group_id s.active_group_id;
}

unfoldable pub open_console :
    IdeState → ℕ → List ℕ → Option ℕ → Option String → String → Option IdeState
open_console s workspace_id y_state connection_id driver new_id =
    let tab = console_tab workspace_id (next_number s workspace_id) y_state connection_id driver in
    elim (ensure_workspace_layout s workspace_id new_id) [
      | none ↦ none
      | some (n, group_id) ↦ some (show_console s tab n group_id)
    ]

-- Of a connection and of a file, what their tabs read.
unfoldable pub new_connection_tab : ℕ → String → String → ℕ → EditorTab
new_connection_tab connection_id name driver workspace_id = record {
  id = "connection:" <> print_number connection_id;
  workspace_id = workspace_id;
  title = name;
  kind = connection;
  subtitle = some driver;
  connection_id = some connection_id;
  driver = some driver;
  file_id = none;
  file_media_type = none;
  file_kind = none;
  file_size_bytes = none;
  object_ref = none;
  diagram_target = none;
  etag = none;
  is_dirty = none;
  content = "-- " <> name <> "\nSELECT 1;";
  y_state = none;
  y_snapshot = none;
}

pub record WorkspaceFile : Type 0 where
  pub id : ℕ
  pub name : String
  pub media_type : Option String
  pub file_kind : Option String
  pub size_bytes : Option ℕ

unfoldable pub new_file_tab : WorkspaceFile → ℕ → EditorTab
new_file_tab source workspace_id = record {
  id = "file:" <> print_number source.id;
  workspace_id = workspace_id;
  title = source.name;
  kind = file;
  subtitle = some source.name;
  connection_id = none;
  driver = none;
  file_id = some source.id;
  file_media_type = source.media_type;
  file_kind = source.file_kind;
  file_size_bytes = source.size_bytes;
  object_ref = none;
  diagram_target = none;
  etag = none;
  is_dirty = none;
  content = "";
  y_state = none;
  y_snapshot = none;
}
