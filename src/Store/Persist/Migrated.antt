-- ===== src/Store/Persist/Migrated.antt =====
-- A store that is made from what was persisted is valid.
use sqlwarden.Layout.Operations.{migrate_to_layout-IsSound}
use sqlwarden.Store.Valid.{IsValid, Fits}
use sqlwarden.Layout.Tree.{create_group, all_groups, LayoutNode, migrate_to_layout}
use mathlib.Core.Bool.{false≢true}
use sqlwarden.Store.Persist.{
  migrate_groups, PersistedState, group_by_workspace, migrate_layouts, migrated_group_id, migrate,
}
use sqlwarden.Store.Valid.Groups.{is_listed}
use sqlwarden.Store.State.{IdeState, EditorTab, initial_state}
use sqlwarden.Common.{
  ℕ, false, List, [], ◌∷◌, ◌++◌, String, Dict, lookup, get_or_else, nat_eq, string_eq, ◌==◌,
  if◌then◌else◌, map, includes, ◌≡◌, refl, arith, lookup-insert, Bool-cases, inl, inr, append-nil,
  append_assoc, IsDistinct, nat_beq_iff, sym, some, insert, none, Option, subst, ◌||◌, true, ◌∙◌,
  any, ◌⊎◌, ap, Option-cases,
}

-- The store starts with the persisted fields laid over its initial ones.
unfoldable pub restore : PersistedState → IdeState
restore p = record initial_state {
  active_workspace_id = p.active_workspace_id;
  maximized_pane = p.maximized_pane;
  active_activity_id = p.active_activity_id;
  sidebar_collapsed = p.sidebar_collapsed;
  layout = get_or_else p.layout [];
  active_group_id = p.active_group_id;
  expanded_nodes = p.expanded_nodes;
  tabs = get_or_else p.tabs [];
  sessions = p.sessions;
}

-- The ids of the tabs of a workspace.
abbrev ids_in : List EditorTab → ℕ → List String
ids_in [] ws = []
ids_in (tab ∷ tabs) ws = (if tab.workspace_id == ws then tab.id ∷ [] else []) ++ ids_in tabs ws

lookup-group_by_workspace :
    (tabs : List EditorTab) (by_ws : Dict ℕ (List String)) (ws : ℕ)
    → get_or_else (lookup ws (group_by_workspace tabs by_ws)) []
      ≡ get_or_else (lookup ws by_ws) [] ++ ids_in tabs ws
unfolding group_by_workspace
lookup-group_by_workspace [] by_ws ws = sym (append-nil _)
lookup-group_by_workspace (tab ∷ tabs) by_ws ws = elim (Bool-cases (tab.workspace_id == ws)) [
  | inl e ↦
      let same : tab.workspace_id ≡ ws = (nat_beq_iff _ _).0 e in
      rw (lookup-group_by_workspace tabs, lookup-insert, e, same, append_assoc) refl
  | inr e ↦ rw (lookup-group_by_workspace tabs, lookup-insert, e) refl
]

-- An id is listed for a workspace if it is among its ids, and the ids are distinct if all are.
includes-ids_in :
    (tabs : List EditorTab) (ws : ℕ) (t : String)
    → includes (ids_in tabs ws) t ≡ is_listed tabs ws t
includes-ids_in [] ws t = refl
includes-ids_in (tab ∷ tabs) ws t = ground (arith, includes-ids_in tabs ws t)

absent-ids_in :
    (tabs : List EditorTab) (ws : ℕ) (t : String)
    → includes (map (λ x. x.id) tabs) t ≡ false
    → includes (ids_in tabs ws) t ≡ false
absent-ids_in [] ws t h = refl
absent-ids_in (tab ∷ tabs) ws t h = ground (arith, absent-ids_in tabs ws t)

IsDistinct-ids_in :
    (tabs : List EditorTab) (ws : ℕ)
    → IsDistinct (map (λ x. x.id) tabs)
    → IsDistinct (ids_in tabs ws)
IsDistinct-ids_in [] ws h = tt
IsDistinct-ids_in (tab ∷ tabs) ws (n, h) = elim (Bool-cases (tab.workspace_id == ws)) [
  | inl e ↦ rw e (absent-ids_in tabs ws tab.id n, IsDistinct-ids_in tabs ws h)
  | inr e ↦ rw e (IsDistinct-ids_in tabs ws h)
]

abbrev keys {ℓ} : {V : Type ℓ} → Dict ℕ V → List ℕ
keys m = map (λ p. p.0) m

includes-insert_key :
    {V : Type 0} (k j : ℕ) (v : V) (m : Dict ℕ V)
    → includes (keys (insert k v m)) j ≡ (k == j || includes (keys m) j)
unfolding insert
includes-insert_key k j v [] = refl
includes-insert_key k j v ((i, w) ∷ m) =
    ground (arith, includes-insert_key k j v m, nat_beq_iff i k)

IsDistinct-insert :
    {V : Type 0} (k : ℕ) (v : V) (m : Dict ℕ V)
    → IsDistinct (keys m)
    → IsDistinct (keys (insert k v m))
unfolding insert
IsDistinct-insert k v [] h = (refl, tt)
IsDistinct-insert k v ((i, w) ∷ m) (n, h) = elim (Bool-cases (i == k)) [
  | inl e ↦
      let same : i ≡ k = (nat_beq_iff i k).0 e in
      rw e (subst (λ j. includes (keys m) j ≡ false) same n, h)
  | inr e ↦ rw e (
    ground (arith, includes-insert_key k i v m, nat_beq_iff i k, nat_beq_iff k i),
    IsDistinct-insert k v m h,
  )
]

IsDistinct-group_by_workspace :
    (tabs : List EditorTab) (by_ws : Dict ℕ (List String))
    → IsDistinct (keys by_ws)
    → IsDistinct (keys (group_by_workspace tabs by_ws))
unfolding group_by_workspace
IsDistinct-group_by_workspace [] by_ws h = h
IsDistinct-group_by_workspace (tab ∷ tabs) by_ws h =
    IsDistinct-group_by_workspace tabs _ (IsDistinct-insert tab.workspace_id _ by_ws h)

absent_key : {V : Type 0} (m : Dict ℕ V) (k : ℕ) → includes (keys m) k ≡ false → lookup k m ≡ none
unfolding lookup
absent_key [] k h = refl
absent_key ((i, w) ∷ m) k h = ground (arith, absent_key m k)

module _ (print : ℕ → String) (active : Dict ℕ String) where
  -- The layout that a workspace gets for its ids.
  abbrev layout_for : ℕ → Option (List String) → Option LayoutNode → Option LayoutNode
  layout_for ws none old = old
  layout_for ws (some ids) old =
      some (migrate_to_layout (migrated_group_id print ws) ids (lookup ws active))

  lookup-migrate_layouts :
      (by_ws : Dict ℕ (List String)) (layout : Dict ℕ LayoutNode) (ws : ℕ)
      → IsDistinct (keys by_ws)
      → lookup ws (migrate_layouts print by_ws active layout)
        ≡ layout_for ws (lookup ws by_ws) (lookup ws layout)
  unfolding migrate_layouts lookup
  lookup-migrate_layouts [] layout ws h = refl
  lookup-migrate_layouts ((i, ids) ∷ by_ws) layout ws (n, h) = elim (Bool-cases (i == ws)) [
    | inl e ↦
        let same : i ≡ ws = (nat_beq_iff i ws).0 e in
        let gone : lookup ws by_ws ≡ none =
          subst (λ j. lookup j by_ws ≡ none) same (absent_key by_ws i n) in
        rw (lookup-migrate_layouts by_ws _ ws h, gone, lookup-insert, e, same) refl
    | inr e ↦ rw (lookup-migrate_layouts by_ws _ ws h, lookup-insert, e) refl
  ]

  module _ (tabs : List EditorTab) (d : IsDistinct (map (λ x. x.id) tabs))
      (own : (ws : ℕ) (t : String) → lookup ws active ≡ some t → is_listed tabs ws t ≡ true) where
    Fits-migrate_to_layout :
        (ws : ℕ) (id : String)
        → Fits tabs ws (migrate_to_layout id (ids_in tabs ws) (lookup ws active))
    unfolding migrate_to_layout create_group all_groups
    Fits-migrate_to_layout ws id = record {
      sound =
          migrate_to_layout-IsSound id (ids_in tabs ws) (lookup ws active)
            (IsDistinct-ids_in tabs ws d) (λ t e. includes-ids_in tabs ws t ∙ own ws t e);
      listed = (λ t i. sym (includes-ids_in tabs ws t) ∙ i, tt);
    }

-- The layout that a workspace has after the migration, and its tabs.
lookup-migrated :
    (print : ℕ → String) (active : Dict ℕ String) (tabs : List EditorTab) (ws : ℕ)
    → lookup ws (migrate_layouts print (group_by_workspace tabs []) active [])
      ≡ layout_for print active ws (lookup ws (group_by_workspace tabs [])) none
unfolding lookup
lookup-migrated print active tabs ws =
    lookup-migrate_layouts print active (group_by_workspace tabs []) [] ws
      (IsDistinct-group_by_workspace tabs [] tt)

lookup-by_workspace :
    (tabs : List EditorTab) (ws : ℕ)
    → get_or_else (lookup ws (group_by_workspace tabs [])) [] ≡ ids_in tabs ws
unfolding lookup
lookup-by_workspace tabs ws = lookup-group_by_workspace tabs [] ws

module _ (print : ℕ → String) (active : Dict ℕ String) (tabs : List EditorTab)
    (d : IsDistinct (map (λ x. x.id) tabs))
    (own : (ws : ℕ) (t : String) → lookup ws active ≡ some t → is_listed tabs ws t ≡ true) where
  abbrev layouts : Dict ℕ LayoutNode
  layouts = migrate_layouts print (group_by_workspace tabs []) active []

  -- A workspace has tabs, and then one pane with them, or no layout.
  layouts-cases :
      (ws : ℕ)
      → ((lookup ws layouts ≡ none) × (ids_in tabs ws ≡ []))
        ⊎ (lookup ws layouts
            ≡ some (
                migrate_to_layout (migrated_group_id print ws) (ids_in tabs ws) (lookup ws active)))
  layouts-cases ws = elim (Option-cases (lookup ws (group_by_workspace tabs []))) [
    | inl e ↦ inl (
      lookup-migrated print active tabs ws ∙ ap (λ o. layout_for print active ws o none) e,
      sym (lookup-by_workspace tabs ws) ∙ ap (λ o. get_or_else o []) e,
    )
    | inr (ids, e) ↦
        let same : ids ≡ ids_in tabs ws =
          sym (ap (λ o. get_or_else o []) e) ∙ lookup-by_workspace tabs ws in
        inr (
          lookup-migrated print active tabs ws
          ∙ ap (λ o. layout_for print active ws o none) e
          ∙ ap (λ is. some (migrate_to_layout (migrated_group_id print ws) is (lookup ws active)))
              same)
  ]

  layouts-Fits : (ws : ℕ) (n : LayoutNode) → lookup ws layouts ≡ some n → Fits tabs ws n
  layouts-Fits ws n h = elim (layouts-cases ws) [
    | inl (e, _) ↦ let q = sym e ∙ h in cc
    | inr e ↦
        let q = sym e ∙ h in
        let same : migrate_to_layout (migrated_group_id print ws) (ids_in tabs ws)
              (lookup ws active)
            ≡ n =
          cc in
        subst (Fits tabs ws) same
          (Fits-migrate_to_layout print active tabs d own ws (migrated_group_id print ws))
  ]

  layouts-shown :
      (ws : ℕ) (t : String)
      → is_listed tabs ws t ≡ true
      → (n : LayoutNode) × (lookup ws layouts ≡ some n)
        × (any (λ g. includes g.tab_ids t) (all_groups n) ≡ true)
  unfolding migrate_to_layout create_group all_groups
  layouts-shown ws t h = elim (layouts-cases ws) [
    | inl (_, e) ↦
        let there = includes-ids_in tabs ws t ∙ h in
        absurd (false≢true (ap (λ ids. includes ids t) (sym e) ∙ there))
    | inr e ↦ (_, e, ground (arith, includes-ids_in tabs ws t, h))
  ]

-- Of a version without layouts, in which no two tabs share an id and the active tab of a workspace is
-- one of its tabs, the migration makes a store that is valid, and that shows every tab in the layout of
-- its own workspace: none is lost.
pub migrate-IsValid :
    (print : ℕ → String) (old : PersistedState)
    → IsDistinct (map (λ t. t.id) (get_or_else old.tabs []))
    → ((ws : ℕ) (t : String)
        → lookup ws (get_or_else old.active_tab_ids []) ≡ some t
        → is_listed (get_or_else old.tabs []) ws t ≡ true)
    → (new : PersistedState) × (migrate print (some old) 0 ≡ some new)
      × IsValid (restore new)
      × ((ws : ℕ) (t : String)
          → is_listed (get_or_else old.tabs []) ws t ≡ true
          → (n : LayoutNode) × (lookup ws (restore new).layout ≡ some n)
            × (any (λ g. includes g.tab_ids t) (all_groups n) ≡ true))
unfolding migrate restore
migrate-IsValid print old d own =
    let tabs = get_or_else old.tabs [] in
    let active = get_or_else old.active_tab_ids [] in
    let by_ws = group_by_workspace tabs [] in
    let new : PersistedState = record old {
      layout = some (migrate_layouts print by_ws active []);
      active_group_id = migrate_groups print by_ws [];
      active_tab_ids = none;
    } in
    (
      new,
      refl,
      record { layouts = layouts-Fits print active tabs d own; distinct = d },
      layouts-shown print active tabs d own,
    )
