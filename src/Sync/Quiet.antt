-- ===== src/Sync/Quiet.antt =====
-- A window does not post what it was told.
use mathlib.Core.List.{Memᴰ}
use sqlwarden.Sync.{
  Window, Message, handle_remote, change_store, notify, take_snapshot, change_messages,
  collect_etags, etag_messages, opened_messages, closed_messages, set_messages, cleared_messages,
  apply_message,
}
use sqlwarden.Store.Laws.Sessions.{IsObject}
use sqlwarden.Store.State.{IdeState, EditorTab}
use sqlwarden.Common.{
  ℕ, true, false, List, [], ◌∷◌, some, String, lookup, insert, Dict, ◌≡◌, refl, arith, Option-cases,
  inl, inr, lookup-insert, map, IsDistinct, includes, All, option_beq_iff, eq_iff, is_some, nat_eq,
  string_eq, All-members, ◌∙◌, includes-member, lookup-insert_self, ap, nat_beq_iff, sym, subst,
}

-- The window listens, and has seen its store as it is.
pub record IsSynced (w : Window) : Type 0 where
  pub is_seeded : w.sync.seeded ≡ true
  pub is_local : w.sync.applying_remote ≡ false
  pub is_current : w.sync.snapshot ≡ take_snapshot w.store

abbrev pub tab_ids_of : List EditorTab → List String
tab_ids_of tabs = map (λ tab. tab.id) tabs

-- The etag of a tab is the one that the snapshot has for its id.
lookup-collect_absent :
    (tabs : List EditorTab) (etags : Dict String String) (id : String)
    → includes (tab_ids_of tabs) id ≡ false
    → lookup id (collect_etags tabs etags) ≡ lookup id etags
unfolding collect_etags
lookup-collect_absent [] etags id h = refl
lookup-collect_absent (tab ∷ tabs) etags id h = elim (Option-cases tab.etag) [
  | inl e ↦ rw e (lookup-collect_absent tabs etags id (ground arith))
  | inr (etag, e) ↦ rw e ground (
    arith,
    lookup-collect_absent tabs (insert tab.id etag etags) id,
    lookup-insert tab.id id etag etags,
    eq_iff tab.id id,
  )
]

-- A tab whose etag stands in the dictionary.
abbrev IsKnown : Dict String String → EditorTab → Type 0
IsKnown etags tab = (etag : String) → tab.etag ≡ some etag → lookup tab.id etags ≡ some etag

All-IsKnown :
    (tabs : List EditorTab) (etags : Dict String String)
    → IsDistinct (tab_ids_of tabs)
    → All (IsKnown (collect_etags tabs etags)) tabs
unfolding collect_etags
All-IsKnown [] etags h = tt
All-IsKnown (tab ∷ tabs) etags (n, h) = (
  λ etag e. lookup-collect_absent tabs _ tab.id n ∙ rw e (lookup-insert_self tab.id etag etags),
  All-IsKnown tabs _ h,
)

etag_messages-quiet :
    (etags : Dict String String) (tabs : List EditorTab)
    → All (IsKnown etags) tabs
    → etag_messages etags tabs ≡ []
unfolding etag_messages
etag_messages-quiet etags [] h = refl
etag_messages-quiet etags (tab ∷ tabs) (k, h) = elim (Option-cases tab.etag) [
  | inl e ↦ rw e (etag_messages-quiet etags tabs h)
  | inr (etag, e) ↦ ground (
    arith,
    e,
    k etag e,
    option_beq_iff (lookup tab.id etags) (some etag),
    etag_messages-quiet etags tabs h,
  )
]

opened_messages-quiet :
    (previous : List String) (tabs : List EditorTab)
    → All (λ tab. includes previous tab.id ≡ true) tabs
    → opened_messages previous tabs ≡ []
unfolding opened_messages
opened_messages-quiet previous [] h = refl
opened_messages-quiet previous (tab ∷ tabs) (k, h) =
    ground (arith, opened_messages-quiet previous tabs h)

closed_messages-quiet :
    (previous current : List String)
    → All (λ id. includes current id ≡ true) previous
    → closed_messages previous current ≡ []
unfolding closed_messages
closed_messages-quiet [] current h = refl
closed_messages-quiet (id ∷ previous) current (k, h) =
    ground (arith, closed_messages-quiet previous current h)

set_messages-quiet :
    (previous sessions : Dict ℕ String)
    → All (λ entry. lookup entry.0 previous ≡ some entry.1) sessions
    → set_messages previous sessions ≡ []
unfolding set_messages
set_messages-quiet previous [] h = refl
set_messages-quiet previous ((c, v) ∷ sessions) (k, h) =
    ground
      (arith, option_beq_iff (lookup c previous) (some v), set_messages-quiet previous sessions h)

cleared_messages-quiet :
    (previous current : Dict ℕ String)
    → All (λ entry. is_some (lookup entry.0 current) ≡ true) previous
    → cleared_messages previous current ≡ []
unfolding cleared_messages
cleared_messages-quiet [] current h = refl
cleared_messages-quiet ((c, v) ∷ previous) current (k, h) =
    ground (arith, cleared_messages-quiet previous current h)

member_key :
    {V : Type 0} (m : Dict ℕ V) {c : ℕ} {v : V}
    → Memᴰ (c, v) m
    → includes (map (λ p. p.0) m) c ≡ true
member_key [] h = elim h [ ]
member_key ((d, w) ∷ m) {c} (Memᴰ.head q) = ground (arith, nat_beq_iff d c, ap (λ p. p.0) q)
member_key ((d, w) ∷ m) {c} (Memᴰ.tail h) = ground (arith, member_key m h)

lookup-member :
    (m : Dict ℕ String) {c : ℕ} {v : String} → IsObject m → Memᴰ (c, v) m → lookup c m ≡ some v
unfolding lookup
lookup-member [] o h = elim h [ ]
lookup-member ((d, w) ∷ m) {c} {v} (n, o) (Memᴰ.head q) =
    ground (arith, nat_beq_iff d c, ap (λ p. p.0) q, ap (λ p. p.1) q)
lookup-member ((d, w) ∷ m) {c} {v} (n, o) (Memᴰ.tail h) =
    let other : (d ≡ c) → false ≡ true =
      λ q. sym n ∙ subst (λ i. includes (map (λ p. p.0) m) i ≡ true) (sym q) (member_key m h) in
    ground (arith, other, nat_beq_iff d c, lookup-member m o h)

includes-tab_ids :
    (tabs : List EditorTab) {tab : EditorTab}
    → Memᴰ tab tabs
    → includes (tab_ids_of tabs) tab.id ≡ true
includes-tab_ids [] h = elim h [ ]
includes-tab_ids (t ∷ tabs) {tab} (Memᴰ.head q) =
    ground (arith, eq_iff t.id tab.id, ap (λ x. x.id) q)
includes-tab_ids (t ∷ tabs) {tab} (Memᴰ.tail h) = ground (arith, includes-tab_ids tabs h)

-- Against a snapshot of itself, a store has no changes.
change_messages-take_snapshot :
    (s : IdeState)
    → IsDistinct (tab_ids_of s.tabs)
    → IsObject s.sessions
    → change_messages (take_snapshot s) s ≡ []
unfolding change_messages take_snapshot
change_messages-take_snapshot s d o =
    rw
      (
        etag_messages-quiet (collect_etags s.tabs []) s.tabs (All-IsKnown s.tabs [] d),
        opened_messages-quiet (tab_ids_of s.tabs) s.tabs
            (All-members _ s.tabs (λ tab m. includes-tab_ids s.tabs m)),
        closed_messages-quiet (tab_ids_of s.tabs) (tab_ids_of s.tabs)
            (All-members _ _ (λ id m. includes-member (tab_ids_of s.tabs) m)),
        set_messages-quiet s.sessions s.sessions
            (All-members _ s.sessions (λ entry m. lookup-member s.sessions o m)),
        cleared_messages-quiet s.sessions s.sessions
            (All-members _ s.sessions (λ entry m. ap is_some (lookup-member s.sessions o m))),
      )
      refl

change_store-quiet :
    (w : Window)
    → IsSynced w
    → IsDistinct (tab_ids_of w.store.tabs)
    → IsObject w.store.sessions
    → (change_store w w.store).1 ≡ []
unfolding change_store notify
change_store-quiet w h d o =
    let quiet : change_messages w.sync.snapshot w.store ≡ [] =
      ap (λ p. change_messages p w.store) h.is_current
      ∙ change_messages-take_snapshot w.store d o in
    ground (arith, h.is_seeded, h.is_local, quiet)

handle_remote-posted :
    (w : Window) (message : Message) (new_id : String)
    → IsSynced w
    → (handle_remote w message new_id).1 ≡ []
unfolding handle_remote notify
handle_remote-posted w message new_id h =
    elim (Option-cases (apply_message message new_id w.store)) [
      | inl e ↦ rw (handle_remote, e) refl
      | inr (next, e) ↦ rw (handle_remote, e, notify, h.is_seeded) refl
    ]

handle_remote-IsSynced :
    (w : Window) (message : Message) (new_id : String)
    → IsSynced w
    → IsSynced (handle_remote w message new_id).0
unfolding handle_remote notify
handle_remote-IsSynced w message new_id h =
    elim (Option-cases (apply_message message new_id w.store)) [
      | inl e ↦
          rw (handle_remote, e)
            (record { is_seeded = h.is_seeded; is_local = refl; is_current = h.is_current })
      | inr (next, e) ↦
          rw (handle_remote, e, notify, h.is_seeded)
            (record { is_seeded = refl; is_local = refl; is_current = refl })
    ]

-- Whatever message a synchronised window handles, it posts nothing, and it is synchronised again with
-- its new store, so that a further notice of that store, where ids of tabs and of connections are
-- distinct, posts nothing either: what one window was told does not come back to the other.
pub handle_remote-quiet :
    (w : Window) (message : Message) (new_id : String)
    → IsSynced w
    → ((handle_remote w message new_id).1 ≡ [])
      × IsSynced (handle_remote w message new_id).0
      × (IsDistinct (tab_ids_of (handle_remote w message new_id).0.store.tabs)
          → IsObject (handle_remote w message new_id).0.store.sessions
          → (change_store
              (handle_remote w message new_id).0
              (handle_remote w message new_id).0.store).1
            ≡ [])
handle_remote-quiet w message new_id h =
    let synced = handle_remote-IsSynced w message new_id h in
    (
      handle_remote-posted w message new_id h,
      synced,
      change_store-quiet (handle_remote w message new_id).0 synced,
    )
