-- ===== src/Sync/Convergence.antt =====
-- The sessions of two windows agree again once the messages of a change are handled.
use sqlwarden.Sync.Quiet.{IsSynced}
use sqlwarden.Layout.Tabs.{remove_tab}
use sqlwarden.Layout.Tree.{LayoutNode}
use sqlwarden.Sync.{
  Message, etag_update, tab_opened, tab_closed, session_set, session_cleared, malformed,
  apply_message, Window, handle_remote, handle_all, etag_messages, opened_messages, closed_messages,
  set_messages, cleared_messages, change_messages, change_store, Snapshot, notify, take_snapshot,
}
use sqlwarden.Store.Laws.Sessions.{IsObject, absent_of_key}
use sqlwarden.Store.Tabs.{
  ensure_tab, close_tab, update_tab_etag, with_layout, release_tab, add_quietly, refocus, tab_named,
}
use sqlwarden.Store.Sessions.{set_session, clear_session}
use sqlwarden.Store.State.{IdeState, EditorTab, ensure_workspace_layout}
use sqlwarden.Common.{
  ℕ, List, [], ◌∷◌, ◌++◌, none, some, String, if◌then◌else◌, ◌==◌, nat_eq, string_eq, lookup,
  insert, erase, is_some, Dict, ◌≡◌, refl, arith, Option-cases, inl, inr, lookup-insert,
  lookup-erase, or_else, ◌+◌, Bool-cases, ◌&&◌, not, ◌∙◌, ap, get_or_else, nat_beq_iff, subst,
  option_beq_iff, sym,
}

-- What a message does to the sessions.
abbrev session_effect : Message → Dict ℕ String → Dict ℕ String
session_effect (etag_update tab_id etag) m = m
session_effect (tab_opened tab) m = m
session_effect (tab_closed tab_id) m = m
session_effect (session_set c session_id) m = insert c session_id m
session_effect (session_cleared c) m = erase c m
session_effect malformed m = m

abbrev session_effects : List Message → Dict ℕ String → Dict ℕ String
session_effects [] m = m
session_effects (message ∷ messages) m = session_effects messages (session_effect message m)

-- Neither opening nor closing a tab changes the sessions.
ensure_tab-sessions :
    (s r : IdeState) (tab : EditorTab) (new_id : String)
    → ensure_tab s tab new_id ≡ some r
    → r.sessions ≡ s.sessions
unfolding ensure_tab add_quietly
ensure_tab-sessions s r tab new_id h =
    elim (Option-cases (ensure_workspace_layout s tab.workspace_id new_id)) [
      | inl e ↦ ground arith
      | inr (place, e) ↦ ground arith
    ]

with_layout-sessions :
    (s r : IdeState) (ws : ℕ) (n : LayoutNode)
    → with_layout s ws n ≡ some r
    → r.sessions ≡ s.sessions
unfolding with_layout
with_layout-sessions s r ws n h = elim (Option-cases (refocus n (lookup ws s.active_group_id))) [
  | inl e ↦ ground arith
  | inr (id, e) ↦ ground arith
]

close_tab-sessions :
    (s r : IdeState) (tab_id : String) → close_tab s tab_id ≡ some r → r.sessions ≡ s.sessions
unfolding close_tab release_tab
close_tab-sessions s r tab_id h = elim (Option-cases (tab_named s.tabs tab_id)) [
  | inl e ↦ ground arith
  | inr (tab, e) ↦ elim (Option-cases (lookup tab.workspace_id s.layout)) [
    | inl l ↦ ground arith
    | inr (n, l) ↦
        with_layout-sessions (release_tab s tab_id) r tab.workspace_id (remove_tab n tab_id)
          (ground arith)
  ]
]

handle_remote-store :
    (w : Window) (message : Message) (new_id : String)
    → (handle_remote w message new_id).0.store
      ≡ get_or_else (apply_message message new_id w.store) w.store
unfolding handle_remote
handle_remote-store w message new_id = elim (Option-cases (apply_message message new_id w.store)) [
  | inl e ↦ rw (handle_remote, e) refl
  | inr (next, e) ↦ rw (handle_remote, e) refl
]

apply_message-sessions :
    (s : IdeState) (message : Message) (new_id : String)
    → (get_or_else (apply_message message new_id s) s).sessions ≡ session_effect message s.sessions
unfolding apply_message update_tab_etag set_session clear_session
apply_message-sessions s (etag_update tab_id etag) new_id = refl
apply_message-sessions s (tab_opened tab) new_id = elim (Option-cases (ensure_tab s tab new_id)) [
  | inl e ↦ rw e refl
  | inr (r, e) ↦ rw e (ensure_tab-sessions s r tab new_id e)
]
apply_message-sessions s (tab_closed tab_id) new_id = elim (Option-cases (close_tab s tab_id)) [
  | inl e ↦ rw e refl
  | inr (r, e) ↦ rw e (close_tab-sessions s r tab_id e)
]
apply_message-sessions s (session_set c session_id) new_id = refl
apply_message-sessions s (session_cleared c) new_id = refl
apply_message-sessions s malformed new_id = refl

-- What a window does with a message changes its sessions as the message says.
handle_remote-sessions :
    (w : Window) (message : Message) (new_id : String)
    → (handle_remote w message new_id).0.store.sessions ≡ session_effect message w.store.sessions
handle_remote-sessions w message new_id =
    ap (λ s. s.sessions) (handle_remote-store w message new_id)
    ∙ apply_message-sessions w.store message new_id

handle_all-sessions :
    (w : Window) (messages : List Message) (ids : ℕ → String)
    → (handle_all w messages ids).store.sessions ≡ session_effects messages w.store.sessions
unfolding handle_all
handle_all-sessions w [] ids = refl
handle_all-sessions w (message ∷ messages) ids =
    handle_all-sessions (handle_remote w message (ids 0)).0 messages (λ i. ids (i + 1))
    ∙ ap (session_effects messages) (handle_remote-sessions w message (ids 0))

session_effects-append :
    (xs ys : List Message) (m : Dict ℕ String)
    → session_effects (xs ++ ys) m ≡ session_effects ys (session_effects xs m)
session_effects-append [] ys m = refl
session_effects-append (x ∷ xs) ys m = session_effects-append xs ys (session_effect x m)

-- The messages about tabs leave the sessions alone.
etag_messages-sessions :
    (previous : Dict String String) (tabs : List EditorTab) (m : Dict ℕ String)
    → session_effects (etag_messages previous tabs) m ≡ m
unfolding etag_messages
etag_messages-sessions previous [] m = refl
etag_messages-sessions previous (tab ∷ tabs) m =
    ground (arith, etag_messages-sessions previous tabs m)

opened_messages-sessions :
    (previous : List String) (tabs : List EditorTab) (m : Dict ℕ String)
    → session_effects (opened_messages previous tabs) m ≡ m
unfolding opened_messages
opened_messages-sessions previous [] m = refl
opened_messages-sessions previous (tab ∷ tabs) m =
    ground (arith, opened_messages-sessions previous tabs m)

closed_messages-sessions :
    (previous current : List String) (m : Dict ℕ String)
    → session_effects (closed_messages previous current) m ≡ m
unfolding closed_messages
closed_messages-sessions [] current m = refl
closed_messages-sessions (id ∷ previous) current m =
    ground (arith, closed_messages-sessions previous current m)

-- The messages about sessions bring one that agrees with the snapshot to the new sessions.
set_messages-absent :
    (previous sessions m : Dict ℕ String) (c : ℕ)
    → lookup c sessions ≡ none
    → lookup c (session_effects (set_messages previous sessions) m) ≡ lookup c m
unfolding set_messages lookup
set_messages-absent previous [] m c h = refl
set_messages-absent previous ((d, v) ∷ sessions) m c h = ground (
  arith,
  set_messages-absent previous sessions m c,
  set_messages-absent previous sessions (insert d v m) c,
  lookup-insert d c v m,
  nat_beq_iff d c,
)

set_messages-lookup :
    (previous sessions m : Dict ℕ String) (c : ℕ)
    → IsObject sessions
    → lookup c m ≡ lookup c previous
    → lookup c (session_effects (set_messages previous sessions) m)
      ≡ or_else (lookup c sessions) (lookup c m)
unfolding set_messages lookup
set_messages-lookup previous [] m c o h = refl
set_messages-lookup previous ((d, v) ∷ sessions) m c (k, o) h = elim (Bool-cases (d == c)) [
  | inl e ↦
      let same : d ≡ c = (nat_beq_iff d c).0 e in
      let gone : lookup c sessions ≡ none =
        subst (λ i. lookup i sessions ≡ none) same (absent_of_key sessions d k) in
      ground (
        arith,
        same,
        h,
        option_beq_iff (lookup d previous) (some v),
        ap (λ i. lookup i previous) same,
        set_messages-absent previous sessions m c gone,
        set_messages-absent previous sessions (insert d v m) c gone,
        lookup-insert d c v m,
      )
  | inr e ↦ ground (
    arith,
    set_messages-lookup previous sessions m c o h,
    set_messages-lookup previous sessions (insert d v m) c o,
    lookup-insert d c v m,
    nat_beq_iff d c,
  )
]

cleared_messages-lookup :
    (previous current m : Dict ℕ String) (c : ℕ)
    → lookup c (session_effects (cleared_messages previous current) m) ≡ (
        if is_some (lookup c previous) && not (is_some (lookup c current))
        then none
        else lookup c m)
unfolding cleared_messages lookup
cleared_messages-lookup [] current m c = refl
cleared_messages-lookup ((d, v) ∷ previous) current m c = ground (
  arith,
  cleared_messages-lookup previous current m c,
  cleared_messages-lookup previous current (erase d m) c,
  lookup-erase d c m,
  nat_beq_iff d c,
)

change_messages-lookup :
    (p : Snapshot) (next : IdeState) (m : Dict ℕ String) (c : ℕ)
    → IsObject next.sessions
    → lookup c m ≡ lookup c p.previous_sessions
    → lookup c (session_effects (change_messages p next) m) ≡ lookup c next.sessions
unfolding change_messages
change_messages-lookup p next m c o h =
    rw
      (
        session_effects-append,
        etag_messages-sessions,
        session_effects-append,
        opened_messages-sessions,
        session_effects-append,
        closed_messages-sessions,
        session_effects-append,
        cleared_messages-lookup,
        set_messages-lookup p.previous_sessions next.sessions m c o h,
      )
      (ground (arith, h))

-- After a change of the store of a synchronised window, in which the ids of connections are distinct, a
-- window whose sessions agreed with the old ones and that handles the posted messages in their order has
-- sessions that agree with the new ones, whatever the messages about tabs do there.
pub handle_all-change_store :
    (w other : Window) (next : IdeState) (ids : ℕ → String)
    → IsSynced w
    → IsObject next.sessions
    → ((c : ℕ) → lookup c other.store.sessions ≡ lookup c w.store.sessions)
    → (c : ℕ)
    → lookup c (handle_all other (change_store w next).1 ids).store.sessions
      ≡ lookup c (change_store w next).0.store.sessions
unfolding change_store notify take_snapshot
handle_all-change_store w other next ids h o agree c =
    let posted : (change_store w next).1 ≡ change_messages w.sync.snapshot next =
      rw (change_store, notify, h.is_seeded, h.is_local) refl in
    let seen = ap (λ p. lookup c p.previous_sessions) h.is_current in
    rw (handle_all-sessions, posted)
      (change_messages-lookup w.sync.snapshot next other.store.sessions c o (agree c ∙ sym seen))
