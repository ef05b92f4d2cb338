-- ===== src/Store/State.antt =====
-- frontend/src/components/ide/useIdeStore.ts: the state of the editor and its selectors.
-- A selector or an action that reads `.id` of the first pane of a layout throws where the layout has
-- no pane; that is the `none` of its result.
use sqlwarden.Common.{
  zero, ℕ, Bool, true, false, not, List, [], ◌∷◌, Option, none, some, String, if◌then◌else◌, ◌==◌,
  string_eq, nat_eq, Dict, lookup, or_else, get_or_else, suc,
}
use sqlwarden.Api.{ResultSet, UnsafeStatement, ObjectRef, DiagramTarget}
use sqlwarden.Layout.Tree.{GroupNode, LayoutNode, group, create_group, find_group, first_group}

pub record OkResult : Type 0 where
  pub result : ResultSet
  pub duration_ms : ℕ
  pub sql : String
  pub connection_id : Option ℕ
  pub is_fetching_next_page : Option Bool
  pub cursor_message : Option String

pub data QueryResult : Type 0 where
  idle : QueryResult
  pending running : (sql : String) → QueryResult
  ok : OkResult → QueryResult
  error : (message sql : String) → QueryResult
  cancelled skipped : (sql : String) → QueryResult

pub record PendingUnsafeQuery : Type 0 where
  pub sql : String
  pub statements : List UnsafeStatement
  pub run_id : String
  pub statement_index : ℕ

pub record ResultRun : Type 0 where
  pub id : String
  pub results : List QueryResult
  pub selected_index : ℕ
  pub created_at : ℕ
  pub connection_id : Option ℕ

-- `TERMINAL_STATUSES.has(entry.status)`.
unfoldable pub is_terminal : QueryResult → Bool
is_terminal idle = false
is_terminal (pending sql) = false
is_terminal (running sql) = false
is_terminal (ok r) = true
is_terminal (error message sql) = true
is_terminal (cancelled sql) = true
is_terminal (skipped sql) = true

-- `'sql' in entry ? entry.sql : ''`.
unfoldable pub sql_of : QueryResult → String
sql_of idle = ""
sql_of (pending sql) = sql
sql_of (running sql) = sql
sql_of (ok r) = r.sql
sql_of (error message sql) = sql
sql_of (cancelled sql) = sql
sql_of (skipped sql) = sql

unfoldable pub skip_entry : QueryResult → QueryResult
skip_entry r = if is_terminal r then r else skipped (sql_of r)

unfoldable pub skip_from_index : List QueryResult → ℕ → List QueryResult
skip_from_index [] i = []
skip_from_index (r ∷ rs) zero = skip_entry r ∷ skip_from_index rs zero
skip_from_index (r ∷ rs) (suc i) = r ∷ skip_from_index rs i

pub data TabKind : Type 0 where
  scratch file connection object diagram : TabKind

pub record EditorTab : Type 0 where
  pub id : String
  pub workspace_id : ℕ
  pub title : String
  pub kind : TabKind
  pub subtitle : Option String
  pub connection_id : Option ℕ
  pub driver : Option String
  pub file_id : Option ℕ
  pub file_media_type : Option String
  pub file_kind : Option String
  pub file_size_bytes : Option ℕ
  pub object_ref : Option ObjectRef
  pub diagram_target : Option DiagramTarget
  pub etag : Option String
  pub is_dirty : Option Bool
  pub content : String
  pub y_state : Option (List ℕ)
  pub y_snapshot : Option (List ℕ)

pub data Pane : Type 0 where
  editor results : Pane

pub record Drag : Type 0 where
  pub tab_id : String
  pub from_group_id : String

pub record Jump : Type 0 where
  pub tab_id : String
  pub line : ℕ
  pub column : ℕ

-- `'connecting' | { error: string }`.
pub data ConnectionStatus : Type 0 where
  connecting : ConnectionStatus
  failed : String → ConnectionStatus

-- An abort controller is its identity; `aborted` is the record of the calls of `abort`.
pub record IdeState : Type 0 where
  pub active_workspace_id : Option ℕ
  pub maximized_pane : Option Pane
  pub active_activity_id : String
  pub sidebar_collapsed : Bool
  pub layout : Dict ℕ LayoutNode
  pub active_group_id : Dict ℕ String
  pub dragging_tab : Option Drag
  pub connection_status : Dict ℕ ConnectionStatus
  pub expanded_nodes : Dict String Bool
  pub focus_editor_request : Option String
  pub pending_jump : Option Jump
  pub tabs : List EditorTab
  pub sessions : Dict ℕ String
  pub result_runs : Dict String (List ResultRun)
  pub selected_run_id : Dict String String
  pub running_tabs : Dict String Bool
  pub abort_controllers : Dict String ℕ
  pub pending_confirmations : Dict String PendingUnsafeQuery
  pub aborted : List ℕ

abbrev pub initial_state : IdeState
initial_state = record {
  active_workspace_id = none;
  maximized_pane = none;
  active_activity_id = "connections";
  sidebar_collapsed = false;
  layout = [];
  active_group_id = [];
  dragging_tab = none;
  connection_status = [];
  expanded_nodes = [];
  focus_editor_request = none;
  pending_jump = none;
  tabs = [];
  sessions = [];
  result_runs = [];
  selected_run_id = [];
  running_tabs = [];
  abort_controllers = [];
  pending_confirmations = [];
  aborted = [];
}

-- `focusedId ? findGroup(layout, focusedId) : undefined`; the empty id counts as missing.
unfoldable pub focused_group : LayoutNode → Option String → Option GroupNode
focused_group n none = none
focused_group n (some id) = if id == "" then none else find_group n id

unfoldable pub focused_or_first : LayoutNode → Option String → Option GroupNode
focused_or_first n focused = or_else (focused_group n focused) (first_group n)

-- The layout of a workspace with its focused pane; a new pane takes the id `new_id`.
unfoldable pub ensure_workspace_layout : IdeState → ℕ → String → Option (LayoutNode × String)
ensure_workspace_layout s ws new_id = elim (lookup ws s.layout) [
  | some existing ↦ elim (focused_or_first existing (lookup ws s.active_group_id)) [
    | none ↦ none
    | some g ↦ some (existing, g.id)
  ]
  | none ↦ some (group (create_group new_id [] none), new_id)
]

unfoldable pub active_tab_id : IdeState → ℕ → Option String
active_tab_id s ws = elim (lookup ws s.layout) [
  | none ↦ none
  | some n ↦ elim (focused_or_first n (lookup ws s.active_group_id)) [
    | none ↦ none
    | some g ↦ g.active_tab_id
  ]
]

pub data ConnectionState : Type 0 where
  connected connecting : ConnectionState
  failed : String → ConnectionState
  idle : ConnectionState

unfoldable pub resolve_connection_state : Bool → Option ConnectionStatus → ConnectionState
resolve_connection_state true status = connected
resolve_connection_state false (some ConnectionStatus.connecting) = ConnectionState.connecting
resolve_connection_state false (some (ConnectionStatus.failed message)) =
    ConnectionState.failed message
resolve_connection_state false none = ConnectionState.idle

-- `Boolean(s.sessions[connectionId])`: the empty session id counts as none.
unfoldable pub has_session : Option String → Bool
has_session none = false
has_session (some id) = not (id == "")

unfoldable pub connection_state : IdeState → ℕ → ConnectionState
connection_state s c =
    resolve_connection_state (has_session (lookup c s.sessions)) (lookup c s.connection_status)

unfoldable pub is_node_expanded : Dict String Bool → String → Bool → Bool
is_node_expanded nodes key fallback = get_or_else (lookup key nodes) fallback
