-- ===== src/Layout/Tabs.antt =====
-- frontend/src/components/ide/ideLayout.ts: the operations on the tabs of the groups.
-- Where the source returns its argument itself to say that nothing changed, the model returns `none`.
use Prim.Native.String
use sqlwarden.Common.{
  ℕ, ◌+◌, Bool, true, false, not, ◌&&◌, ◌||◌, List, [], ◌∷◌, Option, none, some, String,
  if◌then◌else◌, ◌==◌, or_else, get_or_else, length, get_elem?, get_before?, insert_at, find,
  includes, index_of, drop, nat_eq, string_eq, option_eq, without,
}
use sqlwarden.Layout.Tree.{GroupNode, LayoutNode, all_groups, map_groups, normalize}

pub data Position : Type 0 where
  before after : Position

unfoldable pub add_tab_to : String → String → Option ℕ → GroupNode → GroupNode
add_tab_to group_id tab_id index g =
    if not (g.id == group_id) || includes g.tab_ids tab_id then g else record g {
      tab_ids = insert_at (get_or_else index (length g.tab_ids)) tab_id g.tab_ids;
      active_tab_id = some tab_id;
    }

unfoldable pub add_tab : LayoutNode → String → String → Option ℕ → LayoutNode
add_tab n group_id tab_id index = map_groups (add_tab_to group_id tab_id index) n

-- `tabIds[i] ?? tabIds[i - 1]`; both are `undefined` at `i = -1`.
unfoldable pub neighbour : List String → Option ℕ → Option String
neighbour tabs none = none
neighbour tabs (some i) = or_else (get_elem? tabs i) (get_before? tabs i)

-- The common body of `removeTab` and `removeTabFromGroup`.
unfoldable pub drop_tab : String → GroupNode → GroupNode
unfolding neighbour
drop_tab tab_id g =
    let tabs = without tab_id g.tab_ids in
    record g {
      tab_ids = tabs;
      active_tab_id =
          if g.active_tab_id == some tab_id
          then neighbour tabs (index_of g.tab_ids tab_id)
          else g.active_tab_id;
    }

unfoldable pub remove_tab_in : String → GroupNode → GroupNode
remove_tab_in tab_id g = if not (includes g.tab_ids tab_id) then g else drop_tab tab_id g

unfoldable pub remove_tab : LayoutNode → String → LayoutNode
remove_tab n tab_id = normalize (map_groups (remove_tab_in tab_id) n)

unfoldable pub remove_tab_from : String → String → GroupNode → GroupNode
remove_tab_from group_id tab_id g =
    if not (g.id == group_id) || not (includes g.tab_ids tab_id) then g else drop_tab tab_id g

unfoldable pub remove_tab_from_group : LayoutNode → String → String → LayoutNode
remove_tab_from_group n group_id tab_id = normalize (map_groups (remove_tab_from group_id tab_id) n)

unfoldable pub activate : String → GroupNode → GroupNode
activate tab_id g =
    if includes g.tab_ids tab_id then record g { active_tab_id = some tab_id } else g

unfoldable pub set_active : LayoutNode → String → LayoutNode
set_active n tab_id = map_groups (activate tab_id) n

unfoldable pub activate_in : String → String → GroupNode → GroupNode
activate_in group_id tab_id g =
    if g.id == group_id && includes g.tab_ids tab_id
    then record g { active_tab_id = some tab_id }
    else g

unfoldable pub set_active_in_group : LayoutNode → String → String → LayoutNode
set_active_in_group n group_id tab_id = map_groups (activate_in group_id tab_id) n

-- Step 1 of `moveTabBetweenGroups`.
unfoldable pub lift_tab : String → String → GroupNode → GroupNode
lift_tab from_id tab_id g =
    if not (g.id == from_id) || not (includes g.tab_ids tab_id) then g else record g {
      tab_ids = without tab_id g.tab_ids;
      active_tab_id =
          if g.active_tab_id == some tab_id
          then find (λ t. not (t == tab_id)) g.tab_ids
          else g.active_tab_id;
    }

unfoldable pub drop_index : List String → String → Position → ℕ
drop_index tabs target position = elim (index_of tabs target) [
  | none ↦ length tabs
  | some i ↦ elim position [ before ↦ i | after ↦ i + 1 ]
]

-- Step 2 of `moveTabBetweenGroups`.
unfoldable pub land_tab : String → String → String → Position → GroupNode → GroupNode
land_tab to_id tab_id target position g =
    let tabs = without tab_id g.tab_ids in
    if not (g.id == to_id) then g else record g {
      tab_ids = insert_at (drop_index tabs target position) tab_id tabs;
      active_tab_id = some tab_id;
    }

unfoldable pub join : String → List String → String
join sep [] = ""
join sep (x ∷ []) = x
join sep (x ∷ y ∷ ys) = String.◌++◌ x (String.◌++◌ sep (join sep (y ∷ ys)))

unfoldable pub same_groups : List GroupNode → List GroupNode → Bool
unfolding join
same_groups [] [] = true
same_groups [] (h ∷ hs) = false
same_groups (g ∷ gs) [] = false
same_groups (g ∷ gs) (h ∷ hs) =
    g.id == h.id
    && join " " g.tab_ids == join " " h.tab_ids
    && g.active_tab_id == h.active_tab_id
    && same_groups gs hs

-- The tree that `moveTabBetweenGroups` builds before it compares it with its argument.
unfoldable pub moved : LayoutNode → String → String → String → String → Position → LayoutNode
moved n from_id tab_id to_id target position =
    normalize
      (map_groups (land_tab to_id tab_id target position) (map_groups (lift_tab from_id tab_id) n))

unfoldable pub move_tab_between_groups :
    LayoutNode → String → String → String → String → Position → Option LayoutNode
move_tab_between_groups n from_id tab_id to_id target position =
    let result = moved n from_id tab_id to_id target position in
    if from_id == to_id && tab_id == target
    then none
    else if same_groups (all_groups n) (all_groups result)
    then none
    else some result

pub data TabCloseScope : Type 0 where
  others to_right all : TabCloseScope

unfoldable pub tabs_to_close : TabCloseScope → List String → String → List String
tabs_to_close others tabs target = without target tabs
tabs_to_close all tabs target = tabs
tabs_to_close to_right tabs target = elim (index_of tabs target) [
  | none ↦ []
  | some i ↦ drop (i + 1) tabs
]
