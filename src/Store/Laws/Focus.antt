-- ===== src/Store/Laws/Focus.antt =====
-- Opening a tab shows it: it is the active tab of its workspace afterwards.
use sqlwarden.Common.{
  [], ℕ, Option, List, String, ◌≡◌, get_elem?, find, ◌==◌, some, map, ◌∷◌, arith, eq_iff, string_eq,
  none, Option-cases, lookup, false, true, includes-insert_at, nat_eq, subst, inl, any-append,
  length, inr, lookup-insert_self, subst₂, ◌∙◌, lookup-insert, sym,
}
use sqlwarden.Layout.Flat.{all_groups-map_groups}
use sqlwarden.Layout.Tree.{
  GroupNode, LayoutNode, group, create_group, all_groups, find_group, first_group, map_groups,
}
use sqlwarden.Layout.Tabs.{add_tab, add_tab_to, set_active, activate}
use sqlwarden.Store.State.{
  IdeState, EditorTab, active_tab_id, ensure_workspace_layout, focused_group, focused_or_first,
}
use sqlwarden.Store.Tabs.{open_tab, is_open, with_tab, show_in_place}

find-map_id :
    (f : GroupNode → GroupNode) (id : String) (gs : List GroupNode) (g : GroupNode)
    → ((x : GroupNode) → (f x).id ≡ x.id)
    → find (λ x. x.id == id) gs ≡ some g
    → find (λ x. x.id == id) (map f gs) ≡ some (f g)
find-map_id f id [] g h e = cc
find-map_id f id (x ∷ xs) g h e = ground (arith, find-map_id f id xs g h, h x)

find_group-map_groups :
    (f : GroupNode → GroupNode) (n : LayoutNode) (id : String) (g : GroupNode)
    → ((x : GroupNode) → (f x).id ≡ x.id)
    → find_group n id ≡ some g
    → find_group (map_groups f n) id ≡ some (f g)
unfolding find_group
find_group-map_groups f n id g h e =
    rw (all_groups-map_groups f n) (find-map_id f id (all_groups n) g h e)

find-id :
    (id : String) (gs : List GroupNode) (g : GroupNode)
    → find (λ x. x.id == id) gs ≡ some g
    → g.id ≡ id
find-id id [] g e = cc
find-id id (x ∷ xs) g e = ground (arith, find-id id xs g, eq_iff x.id id)

first-found :
    (gs : List GroupNode) (g : GroupNode)
    → get_elem? gs 0 ≡ some g
    → find (λ x. x.id == g.id) gs ≡ some g
first-found [] g e = cc
first-found (x ∷ xs) g e = ground (arith, eq_iff x.id g.id)

focused_group-found :
    (n : LayoutNode) (focused : Option String) (g : GroupNode)
    → focused_group n focused ≡ some g
    → find_group n g.id ≡ some g
unfolding focused_group find_group
focused_group-found n none g e = cc
focused_group-found n (some id) g e =
    let h : find (λ x. x.id == id) (all_groups n) ≡ some g = ground arith in
    subst (λ i. find (λ x. x.id == i) (all_groups n) ≡ some g) (sym (find-id id (all_groups n) g h))
      h

first_group-found :
    (n : LayoutNode) (g : GroupNode) → first_group n ≡ some g → find_group n g.id ≡ some g
unfolding first_group find_group
first_group-found n g e = first-found (all_groups n) g e

focused_or_first-found :
    (n : LayoutNode) (focused : Option String) (g : GroupNode)
    → focused_or_first n focused ≡ some g
    → find_group n g.id ≡ some g
unfolding focused_or_first
focused_or_first-found n focused g e = elim (Option-cases (focused_group n focused)) [
  | inl f ↦ first_group-found n g (ground arith)
  | inr (x, f) ↦ focused_group-found n focused g (ground arith)
]

blank-found :
    (id : String) → find_group (group (create_group id [] none)) id ≡ some (create_group id [] none)
unfolding find_group create_group all_groups
blank-found id = ground (arith, eq_iff id id)

-- The pane that a workspace's next tab goes to is a pane of its layout.
pub ensure_workspace_layout-found :
    (s : IdeState) (ws : ℕ) (new_id : String) (n : LayoutNode) (id : String)
    → ensure_workspace_layout s ws new_id ≡ some (n, id)
    → (g : GroupNode) × (find_group n id ≡ some g)
unfolding ensure_workspace_layout
ensure_workspace_layout-found s ws new_id n id e = elim (Option-cases (lookup ws s.layout)) [
  | inl f ↦ (
    create_group new_id [] none,
    subst₂ (λ a b. find_group a b ≡ some (create_group new_id [] none)) (ground arith)
        (ground arith) (blank-found new_id),
  )
  | inr (m, f) ↦ elim (Option-cases (focused_or_first m (lookup ws s.active_group_id))) [
    | inl k ↦ ground arith
    | inr (g, k) ↦ (
      g,
      subst₂ (λ a b. find_group a b ≡ some g) (ground arith) (ground arith)
          (focused_or_first-found m (lookup ws s.active_group_id) g k),
    )
  ]
]

add_tab_to-id : (id t : String) (g : GroupNode) → (add_tab_to id t none g).id ≡ g.id
unfolding add_tab_to
add_tab_to-id id t g = ground arith

activate-id : (t : String) (g : GroupNode) → (activate t g).id ≡ g.id
unfolding activate
activate-id t g = ground arith

add_tab_to-shown :
    (id t : String) (g : GroupNode)
    → g.id ≡ id
    → (activate t (add_tab_to id t none g)).active_tab_id ≡ some t
unfolding add_tab_to activate
add_tab_to-shown id t g e =
    ground (arith, eq_iff g.id id, includes-insert_at (length g.tab_ids) t g.tab_ids t, eq_iff t t)

-- The layout that `openTab` stores, read at the pane of the tab.
shown-found :
    (n : LayoutNode) (id t : String) (g : GroupNode)
    → find_group n id ≡ some g
    → (h : GroupNode) × (find_group (set_active (add_tab n id t none) t) id ≡ some h)
      × (h.active_tab_id ≡ some t)
unfolding set_active add_tab
shown-found n id t g e = (
  activate t (add_tab_to id t none g),
  find_group-map_groups (activate t) (map_groups (add_tab_to id t none) n) id
      (add_tab_to id t none g) (activate-id t)
      (find_group-map_groups (add_tab_to id t none) n id g (add_tab_to-id id t) e),
  add_tab_to-shown id t g (unfold find_group in find-id id (all_groups n) g e),
)

with_tab-open :
    (tabs : List EditorTab) (tab : EditorTab) → is_open (with_tab tabs tab) tab.id ≡ true
unfolding with_tab
with_tab-open tabs tab =
    ground (arith, any-append (λ x. x.id == tab.id) tabs (tab ∷ []), eq_iff tab.id tab.id)

active_tab_id-focused :
    (s : IdeState) (ws : ℕ) (n : LayoutNode) (id : String) (g : GroupNode)
    → lookup ws s.layout ≡ some n
    → lookup ws s.active_group_id ≡ some id
    → (id == "") ≡ false
    → find_group n id ≡ some g
    → active_tab_id s ws ≡ g.active_tab_id
unfolding active_tab_id focused_or_first focused_group
active_tab_id-focused s ws n id g l a h f = ground arith

-- `openTab`, where it succeeds and the pane it goes to has an id that is not empty, lists the tab and
-- makes it the active tab of its workspace; the layouts of the other workspaces stay.
pub open_tab-shown :
    (s : IdeState) (tab : EditorTab) (new_id : String) (n : LayoutNode) (id : String) (r : IdeState)
    → ensure_workspace_layout s tab.workspace_id new_id ≡ some (n, id)
    → (id == "") ≡ false
    → open_tab s tab new_id ≡ some r
    → (active_tab_id r tab.workspace_id ≡ some tab.id)
      × (is_open r.tabs tab.id ≡ true)
      × ((ws : ℕ) → (tab.workspace_id == ws) ≡ false → lookup ws r.layout ≡ lookup ws s.layout)
unfolding open_tab show_in_place
open_tab-shown s tab new_id n id r e k o =
    let same : show_in_place s tab n id ≡ r = ground arith in
    let (g, f) = ensure_workspace_layout-found s tab.workspace_id new_id n id e in
    let (h, l, a) = shown-found n id tab.id g f in
    subst
      (λ q.
        (active_tab_id q tab.workspace_id ≡ some tab.id)
        × (is_open q.tabs tab.id ≡ true)
        × ((ws : ℕ) → (tab.workspace_id == ws) ≡ false → lookup ws q.layout ≡ lookup ws s.layout))
      same
      (
        active_tab_id-focused (show_in_place s tab n id) tab.workspace_id
              (set_active (add_tab n id tab.id none) tab.id) id h
              (lookup-insert_self tab.workspace_id (set_active (add_tab n id tab.id none) tab.id)
                s.layout)
              (lookup-insert_self tab.workspace_id id s.active_group_id) k l
            ∙ a,
        with_tab-open s.tabs tab,
        λ ws d. ground (
          arith,
          lookup-insert tab.workspace_id ws (set_active (add_tab n id tab.id none) tab.id) s.layout,
        ),
      )
