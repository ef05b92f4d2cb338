-- ===== src/Layout/Operations.antt =====
-- Every operation on a sound layout gives a sound layout.
use sqlwarden.Layout.Placing.{place_at-IsNormal, all_groups-place_at, at_end-All}
use sqlwarden.Layout.Splitting.{split_tree-IsNormal, All-split_tree}
use sqlwarden.Common.{
  ◌≡◌, refl, Bool, true, false, not, List, [], ◌∷◌, Option, none, some, String, arith, ℕ, zero, suc,
  get_or_else, length, find, insert_at, includes, ◌==◌, string_eq, nat_eq, length-includes,
  Option-cases, inl, inr, Bool-cases, IsDistinct, find-true, subst, get_last?, or_else, eq_iff,
}
use sqlwarden.Layout.Tree.{
  GroupNode, LayoutNode, all_groups, map_groups, normalize, create_group, is_empty_group,
  migrate_to_layout, find_group_of_tab, find_group, group, split,
}
use sqlwarden.Layout.Tabs.{
  add_tab, remove_tab, remove_tab_from_group, set_active, set_active_in_group, moved, Position,
  add_tab_to, activate, activate_in,
}
use sqlwarden.Layout.Splits.{
  split_tree, place_tab_at_edge, split_group, split_to_edge, Side, SplitDirection,
  direction_orientation, direction_before,
}
use sqlwarden.Layout.Normal.{has_tabs, map_groups-IsNormal, normalize-IsNormal}
use sqlwarden.Layout.Flat.{All-map_groups, All-normalize}
use sqlwarden.Layout.Sound.{
  IsSound, IsSoundGroup, create_group-IsSoundGroup_empty, remove_tab_in-IsSoundGroup,
  activate-IsSoundGroup, add_tab_to-IsSoundGroup, remove_tab_from-IsSoundGroup,
  land_tab-IsSoundGroup, activate_in-IsSoundGroup, lift_tab-IsSoundGroup,
  create_group-IsSoundGroup_one, IsSelected,
}

module _ (f : GroupNode → GroupNode)
    (keeps : (g : GroupNode) → IsSoundGroup g → IsSoundGroup (f g)) where
  normalize-map_groups-IsSound : (n : LayoutNode) → IsSound n → IsSound (normalize (map_groups f n))
  normalize-map_groups-IsSound n v = record {
    normal = (normalize-IsNormal (map_groups f n)).0;
    groups =
        All-normalize IsSoundGroup create_group-IsSoundGroup_empty _
          (All-map_groups IsSoundGroup f keeps n v.groups);
  }

  map_groups-IsSound :
      (n : LayoutNode)
      → ((g : GroupNode) → has_tabs g ≡ true → has_tabs (f g) ≡ true)
      → IsSound n
      → IsSound (map_groups f n)
  map_groups-IsSound n full v = record {
    normal = map_groups-IsNormal f full n v.normal;
    groups = All-map_groups IsSoundGroup f keeps n v.groups;
  }

insert_at-ne : (i : ℕ) (t : String) (ts : List String) → not (length (insert_at i t ts) == 0) ≡ true
insert_at-ne zero t ts = ground arith
insert_at-ne (suc i) t [] = ground arith
insert_at-ne (suc i) t (u ∷ us) = ground arith

add_tab_to-has_tabs :
    (group_id t : String) (index : Option ℕ) (g : GroupNode)
    → has_tabs g ≡ true
    → has_tabs (add_tab_to group_id t index g) ≡ true
unfolding add_tab_to
add_tab_to-has_tabs group_id t index g h =
    ground (arith, insert_at-ne (get_or_else index (length g.tab_ids)) t g.tab_ids)

activate-has_tabs :
    (t : String) (g : GroupNode) → has_tabs g ≡ true → has_tabs (activate t g) ≡ true
unfolding activate
activate-has_tabs t g h = ground arith

activate_in-has_tabs :
    (group_id t : String) (g : GroupNode)
    → has_tabs g ≡ true
    → has_tabs (activate_in group_id t g) ≡ true
unfolding activate_in
activate_in-has_tabs group_id t g h = ground arith

pub create_group-IsSound : (id : String) → IsSound (group (create_group id [] none))
unfolding all_groups
create_group-IsSound id = record { normal = tt; groups = (create_group-IsSoundGroup_empty id, tt) }

pub add_tab-IsSound :
    (n : LayoutNode) (group_id t : String) (index : Option ℕ)
    → IsSound n
    → IsSound (add_tab n group_id t index)
unfolding add_tab
add_tab-IsSound n group_id t index v =
    map_groups-IsSound _ (add_tab_to-IsSoundGroup group_id t index) n
      (add_tab_to-has_tabs group_id t index) v

pub remove_tab-IsSound : (n : LayoutNode) (t : String) → IsSound n → IsSound (remove_tab n t)
unfolding remove_tab
remove_tab-IsSound n t v = normalize-map_groups-IsSound _ (remove_tab_in-IsSoundGroup t) n v

pub remove_tab_from_group-IsSound :
    (n : LayoutNode) (group_id t : String)
    → IsSound n
    → IsSound (remove_tab_from_group n group_id t)
unfolding remove_tab_from_group
remove_tab_from_group-IsSound n group_id t v =
    normalize-map_groups-IsSound _ (remove_tab_from-IsSoundGroup group_id t) n v

pub set_active-IsSound : (n : LayoutNode) (t : String) → IsSound n → IsSound (set_active n t)
unfolding set_active
set_active-IsSound n t v = map_groups-IsSound _ (activate-IsSoundGroup t) n (activate-has_tabs t) v

pub set_active_in_group-IsSound :
    (n : LayoutNode) (group_id t : String) → IsSound n → IsSound (set_active_in_group n group_id t)
unfolding set_active_in_group
set_active_in_group-IsSound n group_id t v =
    map_groups-IsSound _ (activate_in-IsSoundGroup group_id t) n (activate_in-has_tabs group_id t) v

-- A move between panes keeps a layout sound: normal, with every pane showing each of its tabs once and
-- having one of them active unless it has none.
pub moved-IsSound :
    (n : LayoutNode) (from_id t to_id target : String) (position : Position)
    → IsSound n
    → IsSound (moved n from_id t to_id target position)
unfolding moved
moved-IsSound n from_id t to_id target position v = record {
  normal = (normalize-IsNormal _).0;
  groups = All-normalize IsSoundGroup create_group-IsSoundGroup_empty _ (
      All-map_groups IsSoundGroup _ (land_tab-IsSoundGroup to_id t target position) _
        (All-map_groups IsSoundGroup _ (lift_tab-IsSoundGroup from_id t) n v.groups));
}

-- A pane that shows a tab is not empty, so the layout is no empty pane.
find_group-full :
    (n : LayoutNode) (p : GroupNode → Bool) (g : GroupNode) (t : String)
    → find p (all_groups n) ≡ some g
    → includes g.tab_ids t ≡ true
    → is_empty_group n ≡ false
unfolding all_groups is_empty_group
find_group-full (group d) p g t found shown = ground (arith, length-includes g.tab_ids t)
find_group-full (split s cs) p g t found shown = refl

split_tree-IsSound :
    (n : LayoutNode) (src : String) (direction : SplitDirection) (new : GroupNode)
    → has_tabs new ≡ true
    → IsSoundGroup new
    → is_empty_group n ≡ false
    → IsSound n
    → IsSound (split_tree n src (direction_orientation direction) (direction_before direction) new)
split_tree-IsSound n src direction new full sound e v =
    let orientation = direction_orientation direction in
    let first = direction_before direction in
    record {
      normal = split_tree-IsNormal src orientation first new full n e v.normal;
      groups =
          All-split_tree IsSoundGroup src orientation first new sound n
            create_group-IsSoundGroup_empty v.groups;
    }

abbrev pub new_pane : String → String → GroupNode
new_pane new_id t = create_group new_id (t ∷ []) (some t)

-- A split that succeeds had a source that shows the tab.
pub split_group-eq-some :
    (n : LayoutNode) (src t : String) (direction : SplitDirection) (new_id : String)
    (m : LayoutNode)
    → split_group n src t direction new_id ≡ some m
    → (g : GroupNode) × (find (λ g. g.id == src) (all_groups n) ≡ some g)
      × (includes g.tab_ids t ≡ true)
      × (split_tree n src
            (direction_orientation direction)
            (direction_before direction)
            (new_pane new_id t)
          ≡ m)
unfolding split_group find_group
split_group-eq-some n src t direction new_id m e =
    elim (Option-cases (find (λ g. g.id == src) (all_groups n))) [
      | inl none_found ↦ ground arith
      | inr (g, found) ↦ elim (Bool-cases (includes g.tab_ids t)) [
        | inl shown ↦ (g, found, shown, ground arith)
        | inr hidden ↦ ground arith
      ]
    ]

pub split_group-IsSound :
    (n : LayoutNode) (src t : String) (direction : SplitDirection) (new_id : String)
    (m : LayoutNode)
    → split_group n src t direction new_id ≡ some m
    → IsSound n
    → IsSound m
split_group-IsSound n src t direction new_id m e v =
    let (g, found, shown, same) = split_group-eq-some n src t direction new_id m e in
    subst IsSound same (
      split_tree-IsSound n src direction (new_pane new_id t) (unfold create_group in refl)
        (create_group-IsSoundGroup_one new_id t)
        (find_group-full n (λ g. g.id == src) g t found shown) v)

pub place_tab_at_edge-IsSound :
    (n : LayoutNode) (t : String) (side : Side) (new_id : String)
    → is_empty_group n ≡ false
    → IsSound n
    → IsSound (place_tab_at_edge n t side new_id)
unfolding place_tab_at_edge
place_tab_at_edge-IsSound n t side new_id e v = record {
  normal = place_at-IsNormal _ (unfold create_group in refl) n side e v.normal;
  groups = rw (all_groups-place_at n _ side) (
      at_end-All IsSoundGroup side _ (all_groups n) (create_group-IsSoundGroup_one new_id t)
        v.groups);
}

-- So does a drop on an edge.
pub split_to_edge-eq-some :
    (n : LayoutNode) (t : String) (side : Side) (new_id : String) (m : LayoutNode)
    → split_to_edge n t side new_id ≡ some m
    → (g : GroupNode) × (find (λ g. includes g.tab_ids t) (all_groups n) ≡ some g)
      × (place_tab_at_edge n t side new_id ≡ m)
unfolding split_to_edge find_group_of_tab
split_to_edge-eq-some n t side new_id m e =
    elim (Option-cases (find (λ g. includes g.tab_ids t) (all_groups n))) [
      | inl none_found ↦ ground arith
      | inr (g, found) ↦ (g, found, ground arith)
    ]

pub find_of_tab-full :
    (n : LayoutNode) (t : String) (g : GroupNode)
    → find (λ g. includes g.tab_ids t) (all_groups n) ≡ some g
    → is_empty_group n ≡ false
find_of_tab-full n t g found =
    find_group-full n (λ g. includes g.tab_ids t) g t found
      (find-true (λ g. includes g.tab_ids t) (all_groups n) g found)

pub split_to_edge-IsSound :
    (n : LayoutNode) (t : String) (side : Side) (new_id : String) (m : LayoutNode)
    → split_to_edge n t side new_id ≡ some m
    → IsSound n
    → IsSound m
split_to_edge-IsSound n t side new_id m e v =
    let (g, found, same) = split_to_edge-eq-some n t side new_id m e in
    subst IsSound same (place_tab_at_edge-IsSound n t side new_id (find_of_tab-full n t g found) v)

IsSelected-cons :
    (x y : String) (ys : List String) (o : Option String)
    → IsSelected (y ∷ ys) o
    → IsSelected (x ∷ y ∷ ys) o
IsSelected-cons x y ys none h = cc
IsSelected-cons x y ys (some t) h = ground arith

last-IsSelected : (tabs : List String) → IsSelected tabs (get_last? tabs)
last-IsSelected [] = refl
last-IsSelected (x ∷ []) = ground (arith, eq_iff x x)
last-IsSelected (x ∷ y ∷ ys) = IsSelected-cons x y ys _ (last-IsSelected (y ∷ ys))

create_group-IsSelected :
    (tabs : List String) (active : Option String)
    → ((t : String) → active ≡ some t → includes tabs t ≡ true)
    → IsSelected tabs (or_else active (get_last? tabs))
create_group-IsSelected tabs none h = last-IsSelected tabs
create_group-IsSelected tabs (some t) h = h t refl

pub migrate_to_layout-IsSound :
    (id : String) (tabs : List String) (active : Option String)
    → IsDistinct tabs
    → ((t : String) → active ≡ some t → includes tabs t ≡ true)
    → IsSound (migrate_to_layout id tabs active)
unfolding migrate_to_layout create_group all_groups
migrate_to_layout-IsSound id tabs active d h = record {
  normal = tt;
  groups = (record { distinct = d; selected = create_group-IsSelected tabs active h }, tt);
}
