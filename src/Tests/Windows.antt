-- ===== src/Tests/Windows.antt =====
-- Two windows, the schema browser, the gates of edits, snippets and the local history.
use sqlwarden.Execution.LocalQueries.Retention.{add_local_history_entry-retained}
use sqlwarden.Execution.LocalQueries.{
  LocalHistoryEntry, EntryStatus, list_local_history, add_local_history_entry,
}
use sqlwarden.Statements.Snippets.{Segment, highlight_snippet, texts_of, highlight_snippet-texts}
use sqlwarden.Capability.{
  SchemaEditSpec, gate_for, gate_for-allowed, allowed, edit_eq, is_connected, kinds_for,
  drop_object,
}
use sqlwarden.Directory.Filtering.{objects_of_nodes, AreFilled, filter_nodes-objects}
use sqlwarden.Directory.{ScopeNodes, leaf, branch, nil, cons, filter_nodes, matches}
use sqlwarden.Sync.Convergence.{handle_all-change_store}
use sqlwarden.Sync.Quiet.{IsSynced, handle_remote-quiet, tab_ids_of}
use sqlwarden.Sync.{
  Window, session_set, handle_remote, handle_all, change_store, take_snapshot, fresh_sync,
}
use sqlwarden.Store.Laws.Sessions.{IsObject}
use sqlwarden.Store.State.{IdeState, initial_state}
use sqlwarden.Api.{ObjectRef}
use sqlwarden.Common.{
  String, ℕ, [], ◌∷◌, List, none, some, true, false, ◌≡◌, refl, ◌↔◌, includes, string_eq, length,
  ◌≤◌, lookup, nat_eq, IsDistinct, filter,
}

-- A window that has seen its store, in which connection 7 has a session.
abbrev opened : IdeState
opened = record initial_state { sessions = (7, "s1") ∷ [] }

abbrev window_of : IdeState → Window
window_of s = record {
  store = s;
  sync = record fresh_sync { snapshot = take_snapshot s; seeded = true };
}

window_of-IsSynced : (s : IdeState) → IsSynced (window_of s)
window_of-IsSynced s = record { is_seeded = refl; is_local = refl; is_current = refl }

handle_remote-quiet_example :
    ((handle_remote (window_of opened) (session_set 8 "s2") "g").1 ≡ [])
    × IsSynced (handle_remote (window_of opened) (session_set 8 "s2") "g").0
    × (IsDistinct
          (tab_ids_of (handle_remote (window_of opened) (session_set 8 "s2") "g").0.store.tabs)
        → IsObject (handle_remote (window_of opened) (session_set 8 "s2") "g").0.store.sessions
        → (change_store
            (handle_remote (window_of opened) (session_set 8 "s2") "g").0
            (handle_remote (window_of opened) (session_set 8 "s2") "g").0.store).1
          ≡ [])
handle_remote-quiet_example =
    handle_remote-quiet (window_of opened) (session_set 8 "s2") "g" (window_of-IsSynced opened)

-- The session of connection 7 is replaced by one of connection 9.
abbrev changed : IdeState
changed = record initial_state { sessions = (9, "s3") ∷ [] }

handle_all-change_store_example :
    lookup 7
      (handle_all
        (window_of opened)
        (change_store (window_of opened) changed).1
        (λ _. "g")).store.sessions
    ≡ lookup 7 (change_store (window_of opened) changed).0.store.sessions
handle_all-change_store_example =
    handle_all-change_store (window_of opened) (window_of opened) changed (λ _. "g")
      (window_of-IsSynced opened) (refl, tt) (λ c. refl) 7

abbrev object_named : String → ObjectRef
object_named name = record { scope = []; kind = "table"; name = name }

abbrev tree : ScopeNodes
tree =
    cons
      (branch []
        (record { kind = "table"; objects = object_named "orders" ∷ object_named "users" ∷ [] }
          ∷ [])
        (cons (leaf [] (record { kind = "table"; objects = object_named "items" ∷ [] } ∷ [])) nil))
      nil

filter_nodes-objects_example :
    (objects_of_nodes (filter_nodes (λ s. s) "ord" tree)
      ≡ filter (matches (λ s. s) "ord") (objects_of_nodes tree))
    × AreFilled (filter_nodes (λ s. s) "ord" tree)
filter_nodes-objects_example = filter_nodes-objects (λ s. s) "ord" tree

abbrev editor : SchemaEditSpec
editor = record {
  operations = drop_object ∷ [];
  column_types = [];
  creatable_table_scope_kinds = [];
  droppable_object_kinds = "view" ∷ [];
  droppable_scope_kinds = [];
  supports_cascade = false;
}

gate_for-allowed_example :
    (gate_for drop_object (some editor) (some "s1") true "view" ≡ allowed) ↔ (
      (includes editor.operations drop_object ≡ true)
      × (is_connected (some "s1") ≡ true)
      × (true ≡ true)
      × (includes (kinds_for editor drop_object) "view" ≡ true))
gate_for-allowed_example = gate_for-allowed drop_object editor (some "s1") true "view"

highlight_snippet-texts_example :
    (segments : List Segment) × (highlight_snippet (λ t. t) (97 ∷ 98 ∷ 97 ∷ []) (97 ∷ [])
      ≡ some segments)
    × (texts_of segments ≡ 97 ∷ 98 ∷ 97 ∷ [])
highlight_snippet-texts_example =
    highlight_snippet-texts (λ t. t) (97 ∷ 98 ∷ 97 ∷ []) (97 ∷ []) (λ t h. h)

abbrev entry_at : String → ℕ → LocalHistoryEntry
entry_at id time = record {
  id = id;
  connection_id = 7;
  sql_text = "select 1";
  status = EntryStatus.ok;
  error_message = none;
  duration_ms = 1;
  rows_affected = 0;
  executed_at = time;
}

add_local_history_entry-retained_example :
    length (
      list_local_history 7 (
        add_local_history_entry
          (λ e es. e ∷ es)
          (entry_at "c" 3)
          2
          (entry_at "a" 1 ∷ entry_at "b" 2 ∷ [])))
    ≤ 2
add_local_history_entry-retained_example =
    add_local_history_entry-retained (λ e es. e ∷ es) (entry_at "c" 3) 2
      (entry_at "a" 1 ∷ entry_at "b" 2 ∷ [])
