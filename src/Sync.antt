-- ===== src/Sync.antt =====
-- frontend/src/components/ide/storeSync.ts: two windows that keep each other's tabs and sessions.
-- A channel's message is a value, and the store's listener a function of the store's new state. The
-- fields of a message have the types that the guards of `handleRemote` test; every other message is
-- `malformed`. `new_id` is the id of a pane that an action may make.
pub mod Convergence
pub mod Quiet
use text.Mathlib.Text.{starts_with}
use sqlwarden.Store.State.{IdeState, EditorTab, TabKind, scratch, file, connection, object, diagram}
use sqlwarden.Store.Consoles.{is_scratch}
use sqlwarden.Store.Tabs.{ensure_tab, close_tab, update_tab_etag}
use sqlwarden.Store.Sessions.{set_session, clear_session}
use sqlwarden.Common.{
  ℕ, Bool, true, false, not, ◌&&◌, List, [], ◌∷◌, ◌++◌, Option, none, some, String, if◌then◌else◌,
  ◌==◌, string_eq, option_eq, nat_eq, option_beq, lookup, insert, is_some, map, includes, Dict, ◌+◌,
}

pub data Message : Type 0 where
  etag_update : (tab_id etag : String) → Message
  tab_opened : EditorTab → Message
  tab_closed : String → Message
  session_set : ℕ → String → Message
  session_cleared : ℕ → Message
  malformed : Message

-- The variables of the closure. A `Set` is the list of its elements.
pub record Snapshot : Type 0 where
  pub previous_etags : Dict String String
  pub previous_tab_ids : List String
  pub previous_sessions : Dict ℕ String

pub record SyncState : Type 0 where
  pub snapshot : Snapshot
  pub applying_remote : Bool
  pub seeded : Bool

abbrev pub fresh_sync : SyncState
fresh_sync = record {
  snapshot = record { previous_etags = []; previous_tab_ids = []; previous_sessions = [] };
  applying_remote = false;
  seeded = false;
}

-- The action that a message asks for; `none` is that none is done, since the message is malformed or the
-- action ends in a TypeError.
unfoldable pub apply_message : Message → String → IdeState → Option IdeState
apply_message (etag_update tab_id etag) new_id s = some (update_tab_etag s tab_id etag)
apply_message (tab_opened tab) new_id s = ensure_tab s tab new_id
apply_message (tab_closed tab_id) new_id s = close_tab s tab_id
apply_message (session_set c session_id) new_id s = some (set_session s c session_id)
apply_message (session_cleared c) new_id s = some (clear_session s c)
apply_message malformed new_id s = none

-- `previousEtags.set` for each tab with an etag.
unfoldable pub collect_etags : List EditorTab → Dict String String → Dict String String
collect_etags [] etags = etags
collect_etags (tab ∷ tabs) etags =
    collect_etags tabs (elim tab.etag [ none ↦ etags | some etag ↦ insert tab.id etag etags ])

unfoldable pub take_snapshot : IdeState → Snapshot
take_snapshot s = record {
  previous_etags = collect_etags s.tabs [];
  previous_tab_ids = map (λ tab. tab.id) s.tabs;
  previous_sessions = s.sessions;
}

unfoldable pub etag_messages : Dict String String → List EditorTab → List Message
etag_messages previous [] = []
etag_messages previous (tab ∷ tabs) =
    let rest = etag_messages previous tabs in
    elim tab.etag [
      | none ↦ rest
      | some etag ↦
          if option_beq (lookup tab.id previous) (some etag)
          then rest
          else etag_update tab.id etag ∷ rest
    ]

unfoldable pub opened_messages : List String → List EditorTab → List Message
opened_messages previous [] = []
opened_messages previous (tab ∷ tabs) =
    let rest = opened_messages previous tabs in
    if not (includes previous tab.id) && is_scratch tab.kind then tab_opened tab ∷ rest else rest

unfoldable pub closed_messages : List String → List String → List Message
closed_messages [] current = []
closed_messages (id ∷ previous) current =
    let rest = closed_messages previous current in
    if not (includes current id) && starts_with id "scratch:" then tab_closed id ∷ rest else rest

unfoldable pub set_messages : Dict ℕ String → Dict ℕ String → List Message
set_messages previous [] = []
set_messages previous ((c, session_id) ∷ sessions) =
    let rest = set_messages previous sessions in
    if option_beq (lookup c previous) (some session_id)
    then rest
    else session_set c session_id ∷ rest

unfoldable pub cleared_messages : Dict ℕ String → Dict ℕ String → List Message
cleared_messages [] current = []
cleared_messages ((c, session_id) ∷ previous) current =
    let rest = cleared_messages previous current in
    if is_some (lookup c current) then rest else session_cleared c ∷ rest

-- What has changed since the snapshot.
unfoldable pub change_messages : Snapshot → IdeState → List Message
change_messages p s =
    etag_messages p.previous_etags s.tabs
    ++ (opened_messages p.previous_tab_ids s.tabs
        ++ (closed_messages p.previous_tab_ids (map (λ tab. tab.id) s.tabs)
            ++ (set_messages p.previous_sessions s.sessions
                ++ cleared_messages p.previous_sessions s.sessions)))

-- The listener of the store: the new variables, and the messages that it posts.
unfoldable pub notify : SyncState → IdeState → SyncState × List Message
notify sync s =
    if not sync.seeded then (record sync { snapshot = take_snapshot s; seeded = true }, []) else (
      record sync { snapshot = take_snapshot s },
      if sync.applying_remote then [] else change_messages sync.snapshot s,
    )

pub record Window : Type 0 where
  pub store : IdeState
  pub sync : SyncState

-- `handleRemote`: the action, the listener that it calls, and the `finally`. Where no
-- action is done, the store stays and no listener is called.
unfoldable pub handle_remote : Window → Message → String → Window × List Message
handle_remote w message new_id = elim (apply_message message new_id w.store) [
  | none ↦ (record w { sync = record w.sync { applying_remote = false } }, [])
  | some next ↦
      let (sync, posted) = notify (record w.sync { applying_remote = true }) next in
      (record { store = next; sync = record sync { applying_remote = false } }, posted)
]

-- A change that the window's own user makes.
unfoldable pub change_store : Window → IdeState → Window × List Message
change_store w next =
    let (sync, posted) = notify w.sync next in (record { store = next; sync = sync }, posted)

-- A window that handles messages in their order; new panes take the ids from a list.
unfoldable pub handle_all : Window → List Message → (ℕ → String) → Window
handle_all w [] ids = w
handle_all w (message ∷ messages) ids =
    handle_all (handle_remote w message (ids 0)).0 messages (λ i. ids (i + 1))
