-- ===== src/Store/Sessions.antt =====
-- frontend/src/components/ide/useIdeStore.ts: the actions on sessions, statuses and the side panels.
use sqlwarden.Common.{
  ℕ, Bool, List, [], ◌∷◌, Option, none, some, String, nat_eq, string_eq, Dict, insert, erase,
}
use sqlwarden.Store.State.{IdeState, ConnectionStatus, Pane}

unfoldable pub set_active_workspace : IdeState → ℕ → IdeState
set_active_workspace s ws = record s { active_workspace_id = some ws }

unfoldable pub set_connection_status : IdeState → ℕ → Option ConnectionStatus → IdeState
set_connection_status s c none = record s { connection_status = erase c s.connection_status }
set_connection_status s c (some status) = record s {
  connection_status = insert c status s.connection_status;
}

unfoldable pub set_node_expanded : IdeState → String → Bool → IdeState
set_node_expanded s key expanded = record s {
  expanded_nodes = insert key expanded s.expanded_nodes;
}

unfoldable pub collapse_all_nodes : IdeState → IdeState
collapse_all_nodes s = record s { expanded_nodes = [] }

unfoldable pub set_maximized_pane : IdeState → Option Pane → IdeState
set_maximized_pane s pane = record s { maximized_pane = pane }

unfoldable pub set_active_activity : IdeState → String → IdeState
set_active_activity s activity = record s { active_activity_id = activity }

unfoldable pub set_sidebar_collapsed : IdeState → Bool → IdeState
set_sidebar_collapsed s collapsed = record s { sidebar_collapsed = collapsed }

unfoldable pub set_session : IdeState → ℕ → String → IdeState
set_session s c session_id = record s { sessions = insert c session_id s.sessions }

unfoldable pub clear_session : IdeState → ℕ → IdeState
clear_session s c = record s { sessions = erase c s.sessions }

-- `for (const id of scope) delete next[id]`.
unfoldable pub drop_sessions : List ℕ → Dict ℕ String → Dict ℕ String
drop_sessions [] m = m
drop_sessions (c ∷ cs) m = drop_sessions cs (erase c m)

-- `for (const [id, sessionId] of Object.entries(backend)) next[id] = sessionId`.
unfoldable pub put_sessions : Dict ℕ String → Dict ℕ String → Dict ℕ String
put_sessions [] m = m
put_sessions ((c, session_id) ∷ rest) m = put_sessions rest (insert c session_id m)

unfoldable pub sync_sessions : IdeState → Dict ℕ String → Option (List ℕ) → IdeState
sync_sessions s backend none = record s { sessions = backend }
sync_sessions s backend (some scope) = record s {
  sessions = put_sessions backend (drop_sessions scope s.sessions);
}
