-- ===== src/Store/Actions.antt =====
-- frontend/src/components/ide/useIdeStore.ts: the store's actions as one step function. Ids of new panes and runs and the time are arguments of the action.
use sqlwarden.Store.Sessions.{
  set_active_workspace, set_connection_status, set_node_expanded, collapse_all_nodes,
  set_maximized_pane, set_active_activity, set_sidebar_collapsed, set_session, clear_session,
  sync_sessions,
}
use sqlwarden.Store.Panes.{
  set_active_tab, focus_group, move_tab, set_dragging_tab, split_active_tab, split_tab_to_edge,
  set_focus_editor_request, set_split_sizes, set_pending_jump,
}
use sqlwarden.Store.Valid.Moving.{
  set_active_tab-IsValid, move_tab-IsValid, split_active_tab-IsValid, split_tab_to_edge-IsValid,
  set_split_sizes-IsValid,
}
use sqlwarden.Store.Valid.Closing.{close_tab-IsValid, close_tab_instance-IsValid}
use sqlwarden.Store.Runs.{
  close_run_tab, abandon_pending_run_confirmation, begin_run, evict_runs, set_run_statement_result,
  mark_run_remaining_skipped, set_tab_running, set_tab_controller, set_pending_confirmation,
  clear_pending_confirmation, set_selected_run, set_selected_index_in_run,
}
use sqlwarden.Store.Tabs.{
  open_tab, open_tab_to_side, ensure_tab, close_tab, close_tab_instance, rename_tab_by_file_id,
  update_tab_content, update_tab_etag, set_tab_connection,
}
use sqlwarden.Common.{refl, ℕ, Bool, List, Option, none, some, String, Dict, ◌≡◌, string_eq, nat_eq}
use sqlwarden.Layout.Tabs.{Position}
use sqlwarden.Layout.Splits.{Side, SplitDirection}
use sqlwarden.Store.State.{
  IdeState, EditorTab, QueryResult, PendingUnsafeQuery, ConnectionStatus, Pane, Drag, Jump,
}
use sqlwarden.Store.Consoles.Fresh.{AreConsoles}
use sqlwarden.Store.Consoles.{open_console}
use sqlwarden.Store.Valid.Frames.{
  same-IsValid, update_runs-IsValid, abandon-IsValid, close_run_tab-IsValid, rename_file-same,
  change_content-same, change_etag-same, change_connection-same, open_console-IsValid,
}
use sqlwarden.Store.Valid.{IsValid, map-IsValid}
use sqlwarden.Store.Valid.Opening.{
  IsOwn, open_tab-IsValid, open_tab_to_side-IsValid, ensure_tab-IsValid,
}

pub data Action : Type 0 where
  open_tabs open_tabs_to_side ensure_tabs : EditorTab → (new_id : String) → Action
  close_tabs : (tab_id : String) → Action
  close_tab_instances : (group_id tab_id : String) → Action
  rename_tabs : (file_id : ℕ) (name : String) → Action
  update_content : (tab_id content : String) → Option (List ℕ) → Action
  update_etag : (tab_id etag : String) → Action
  set_connection : (tab_id : String) (connection_id : ℕ) → Option String → Action
  activate_tab : (group_id tab_id : String) → Action
  move_tabs : (from_id tab_id to_id target : String) → Position → Action
  focus_groups : (ws : ℕ) (group_id : String) → Action
  split_tabs : (ws : ℕ) (group_id tab_id : String) → SplitDirection → (new_id : String) → Action
  split_tabs_to_edge : (ws : ℕ) (tab_id : String) → Side → (new_id : String) → Action
  set_sizes : (ws : ℕ) (split_id : String) → List ℕ → Action
  drag : Option Drag → Action
  request_focus : Option String → Action
  request_jump : Option Jump → Action
  activate_workspace : ℕ → Action
  set_status : ℕ → Option ConnectionStatus → Action
  expand_node : String → Bool → Action
  collapse_nodes : Action
  maximize_pane : Option Pane → Action
  set_activity : String → Action
  collapse_sidebar : Bool → Action
  put_session : ℕ → String → Action
  drop_session : ℕ → Action
  sync_all_sessions : Dict ℕ String → Option (List ℕ) → Action
  begin_runs : (tab_id : String) → List String → Option ℕ → (run_id : String) (now : ℕ) → Action
  evict : (tab_id : String) → List String → Action
  set_result : (tab_id run_id : String) → ℕ → QueryResult → Action
  skip_remaining : (tab_id run_id : String) → ℕ → Action
  set_running : (tab_id : String) → Bool → Action
  set_controller : (tab_id : String) → Option ℕ → Action
  put_confirmation : (tab_id : String) → PendingUnsafeQuery → Action
  drop_confirmation abandon_confirmation : (tab_id : String) → Action
  select_run close_run : (tab_id run_id : String) → Action
  select_index : (tab_id run_id : String) → ℕ → Action
  open_consoles : (ws : ℕ) → List ℕ → Option ℕ → Option String → (new_id : String) → Action

unfoldable pub step : IdeState → Action → Option IdeState
step s (open_tabs tab id) = open_tab s tab id
step s (open_tabs_to_side tab id) = open_tab_to_side s tab id
step s (ensure_tabs tab id) = ensure_tab s tab id
step s (close_tabs t) = close_tab s t
step s (close_tab_instances g t) = close_tab_instance s g t
step s (rename_tabs f name) = some (rename_tab_by_file_id s f name)
step s (update_content t c y) = some (update_tab_content s t c y)
step s (update_etag t e) = some (update_tab_etag s t e)
step s (set_connection t c d) = some (set_tab_connection s t c d)
step s (activate_tab g t) = some (set_active_tab s g t)
step s (move_tabs f t g u p) = move_tab s f t g u p
step s (focus_groups ws g) = some (focus_group s ws g)
step s (split_tabs ws g t d id) = some (split_active_tab s ws g t d id)
step s (split_tabs_to_edge ws t side id) = some (split_tab_to_edge s ws t side id)
step s (set_sizes ws id sizes) = some (set_split_sizes s ws id sizes)
step s (drag d) = some (set_dragging_tab s d)
step s (request_focus k) = some (set_focus_editor_request s k)
step s (request_jump j) = some (set_pending_jump s j)
step s (activate_workspace ws) = some (set_active_workspace s ws)
step s (set_status c st) = some (set_connection_status s c st)
step s (expand_node k b) = some (set_node_expanded s k b)
step s collapse_nodes = some (collapse_all_nodes s)
step s (maximize_pane p) = some (set_maximized_pane s p)
step s (set_activity a) = some (set_active_activity s a)
step s (collapse_sidebar b) = some (set_sidebar_collapsed s b)
step s (put_session c id) = some (set_session s c id)
step s (drop_session c) = some (clear_session s c)
step s (sync_all_sessions b scope) = some (sync_sessions s b scope)
step s (begin_runs t sqls c id now) = some (begin_run s t sqls c id now)
step s (evict t ids) = some (evict_runs s t ids)
step s (set_result t r i q) = some (set_run_statement_result s t r i q)
step s (skip_remaining t r i) = some (mark_run_remaining_skipped s t r i)
step s (set_running t b) = some (set_tab_running s t b)
step s (set_controller t c) = some (set_tab_controller s t c)
step s (put_confirmation t p) = some (set_pending_confirmation s t p)
step s (drop_confirmation t) = some (clear_pending_confirmation s t)
step s (abandon_confirmation t) = some (abandon_pending_run_confirmation s t)
step s (select_run t r) = some (set_selected_run s t r)
step s (close_run t r) = some (close_run_tab s t r)
step s (select_index t r i) = some (set_selected_index_in_run s t r i)
step s (open_consoles ws y c d id) = open_console s ws y c d id

-- What the callers of the opening actions keep to: an id that is open belongs to the same workspace, and
-- ids of consoles belong to consoles.
abbrev pub IsAllowed : IdeState → Action → Type 0
IsAllowed s (open_tabs tab id) = IsOwn s.tabs tab
IsAllowed s (open_tabs_to_side tab id) = IsOwn s.tabs tab
IsAllowed s (ensure_tabs tab id) = IsOwn s.tabs tab
IsAllowed s (open_consoles ws y c d id) = AreConsoles s.tabs ws
IsAllowed s a = Unit

-- Every allowed action on a valid store succeeds, and its result is valid.
pub step-IsValid :
    (s : IdeState) (a : Action)
    → IsAllowed s a
    → IsValid s
    → (r : IdeState) × (step s a ≡ some r) × IsValid r
unfolding step rename_tab_by_file_id update_tab_content update_tab_etag set_tab_connection
    focus_group set_dragging_tab set_focus_editor_request set_pending_jump set_active_workspace
    set_connection_status set_node_expanded collapse_all_nodes set_maximized_pane
    set_active_activity set_sidebar_collapsed set_session clear_session sync_sessions begin_run
    evict_runs set_run_statement_result mark_run_remaining_skipped set_tab_running
    set_tab_controller set_pending_confirmation clear_pending_confirmation set_selected_run
    set_selected_index_in_run
step-IsValid s (open_tabs tab id) h v = open_tab-IsValid s tab id h v
step-IsValid s (open_tabs_to_side tab id) h v = open_tab_to_side-IsValid s tab id h v
step-IsValid s (ensure_tabs tab id) h v = ensure_tab-IsValid s tab id h v
step-IsValid s (close_tabs t) h v = close_tab-IsValid s t v
step-IsValid s (close_tab_instances g t) h v = close_tab_instance-IsValid s g t v
step-IsValid s (activate_tab g t) h v = (_, refl, set_active_tab-IsValid s g t v)
step-IsValid s (move_tabs f t g u p) h v = move_tab-IsValid s f t g u p v
step-IsValid s (split_tabs ws g t d id) h v = (_, refl, split_active_tab-IsValid s ws g t d id v)
step-IsValid s (split_tabs_to_edge ws t side id) h v =
    (_, refl, split_tab_to_edge-IsValid s ws t side id v)
step-IsValid s (set_sizes ws id sizes) h v = (_, refl, set_split_sizes-IsValid id sizes s ws v)
step-IsValid s (rename_tabs f name) h v = (_, refl, map-IsValid s _ (rename_file-same f name) v)
step-IsValid s (update_content t c y) h v = (_, refl, map-IsValid s _ (change_content-same t c y) v)
step-IsValid s (update_etag t e) h v = (_, refl, map-IsValid s _ (change_etag-same t e) v)
step-IsValid s (set_connection t c d) h v =
    (_, refl, map-IsValid s _ (change_connection-same t c d) v)
step-IsValid s (focus_groups ws g) h v = (_, refl, same-IsValid s _ refl refl v)
step-IsValid s (drag d) h v = (_, refl, same-IsValid s _ refl refl v)
step-IsValid s (request_focus k) h v = (_, refl, same-IsValid s _ refl refl v)
step-IsValid s (request_jump j) h v = (_, refl, same-IsValid s _ refl refl v)
step-IsValid s (activate_workspace ws) h v = (_, refl, same-IsValid s _ refl refl v)
step-IsValid s (expand_node k b) h v = (_, refl, same-IsValid s _ refl refl v)
step-IsValid s collapse_nodes h v = (_, refl, same-IsValid s _ refl refl v)
step-IsValid s (maximize_pane p) h v = (_, refl, same-IsValid s _ refl refl v)
step-IsValid s (set_activity a) h v = (_, refl, same-IsValid s _ refl refl v)
step-IsValid s (collapse_sidebar b) h v = (_, refl, same-IsValid s _ refl refl v)
step-IsValid s (put_session c id) h v = (_, refl, same-IsValid s _ refl refl v)
step-IsValid s (drop_session c) h v = (_, refl, same-IsValid s _ refl refl v)
step-IsValid s (begin_runs t sqls c id now) h v = (_, refl, same-IsValid s _ refl refl v)
step-IsValid s (set_running t b) h v = (_, refl, same-IsValid s _ refl refl v)
step-IsValid s (put_confirmation t p) h v = (_, refl, same-IsValid s _ refl refl v)
step-IsValid s (drop_confirmation t) h v = (_, refl, same-IsValid s _ refl refl v)
step-IsValid s (select_run t r) h v = (_, refl, same-IsValid s _ refl refl v)
step-IsValid s (set_status c none) h v = (_, refl, same-IsValid s _ refl refl v)
step-IsValid s (set_status c (some st)) h v = (_, refl, same-IsValid s _ refl refl v)
step-IsValid s (sync_all_sessions b none) h v = (_, refl, same-IsValid s _ refl refl v)
step-IsValid s (sync_all_sessions b (some scope)) h v = (_, refl, same-IsValid s _ refl refl v)
step-IsValid s (set_controller t none) h v = (_, refl, same-IsValid s _ refl refl v)
step-IsValid s (set_controller t (some c)) h v = (_, refl, same-IsValid s _ refl refl v)
step-IsValid s (evict t ids) h v = (_, refl, update_runs-IsValid s t _ v)
step-IsValid s (set_result t r i q) h v = (_, refl, update_runs-IsValid s t _ v)
step-IsValid s (skip_remaining t r i) h v = (_, refl, update_runs-IsValid s t _ v)
step-IsValid s (select_index t r i) h v = (_, refl, update_runs-IsValid s t _ v)
step-IsValid s (abandon_confirmation t) h v = (_, refl, abandon-IsValid s t v)
step-IsValid s (open_consoles ws y c d id) h v = open_console-IsValid s ws y c d id h v
step-IsValid s (close_run t r) h v = (_, refl, close_run_tab-IsValid s t r v)
