-- ===== src/Layout/Splits.antt =====
-- frontend/src/components/ide/ideLayout.ts: the operations that open a new group.
-- Where the source returns its argument itself to say that nothing changed, the model returns `none`.
use Prim.Native.String
use sqlwarden.Common.{
  Bool, true, false, not, ◌||◌, [], ◌∷◌, Option, none, some, String, if◌then◌else◌, ◌==◌, is_some,
  includes, nat_eq, string_eq, option_eq,
}
use sqlwarden.Layout.Tree.{
  GroupNode, Orientation, row, column, SplitHead, LayoutNode, group, split, Forest, nil, cons,
  create_group, find_group, find_group_of_tab, normalize,
}

pub data SplitDirection : Type 0 where
  left right up down : SplitDirection

pub data Side : Type 0 where
  left right : Side

abbrev pub direction_orientation : SplitDirection → Orientation
direction_orientation SplitDirection.left = row
direction_orientation SplitDirection.right = row
direction_orientation up = column
direction_orientation down = column

abbrev pub direction_before : SplitDirection → Bool
direction_before SplitDirection.left = true
direction_before SplitDirection.right = false
direction_before up = true
direction_before down = false

unfoldable pub same_orientation : Orientation → Orientation → Bool
same_orientation row row = true
same_orientation row column = false
same_orientation column row = false
same_orientation column column = true

abbrev pub pair : Bool → LayoutNode → LayoutNode → Forest
pair true new target = cons new (cons target nil)
pair false new target = cons target (cons new nil)

abbrev pub fresh_head : String → Orientation → SplitHead
fresh_head new_id orientation = record {
  id = String.◌++◌ "s-" new_id;
  orientation = orientation;
  sizes = none;
}

-- A new split around a node, with the new group before or after it.
unfoldable pub wrap : String → Orientation → Bool → GroupNode → LayoutNode → LayoutNode
wrap new_id orientation first new target =
    split (fresh_head new_id orientation) (pair first (group new) target)

unfoldable pub is_group : String → LayoutNode → Bool
is_group id (group g) = g.id == id
is_group id (split s cs) = false

-- `findIndex(…) !== -1` over the children.
unfoldable pub has_child : String → Forest → Bool
has_child id nil = false
has_child id (cons c cs) = is_group id c || has_child id cs

-- `children.splice(before ? idx : idx + 1, 0, newGroup)`.
unfoldable pub insert_beside : String → Bool → GroupNode → Forest → Forest
insert_beside id first new nil = nil
insert_beside id first new (cons c cs) =
    if is_group id c
    then (if first then cons (group new) (cons c cs) else cons c (cons (group new) cs))
    else cons c (insert_beside id first new cs)

-- `children[idx] = wrap(children[idx])`.
unfoldable pub wrap_child : String → (LayoutNode → LayoutNode) → Forest → Forest
wrap_child id w nil = nil
wrap_child id w (cons c cs) = if is_group id c then cons (w c) cs else cons c (wrap_child id w cs)

module _ (src : String) (orientation : Orientation) (first : Bool) (new : GroupNode) where
  -- A split that has the source group among its children.
  unfoldable pub place_beside : SplitHead → Forest → LayoutNode
  place_beside s cs =
      if same_orientation s.orientation orientation
      then split s (insert_beside src first new cs)
      else split s (wrap_child src (wrap new.id orientation first new) cs)

  unfoldable mutual
    pub transform : LayoutNode → LayoutNode
    transform (group g) = group g
    transform (split s cs) =
        let deeper = transform_each cs in
        if has_child src cs then place_beside s cs else split s deeper

    pub transform_each : Forest → Forest
    transform_each nil = nil
    transform_each (cons c cs) = cons (transform c) (transform_each cs)

abbrev pub split_tree : LayoutNode → String → Orientation → Bool → GroupNode → LayoutNode
split_tree (group g) src orientation first new = wrap new.id orientation first new (group g)
split_tree (split s cs) src orientation first new =
    normalize (transform src orientation first new (split s cs))

unfoldable pub split_group :
    LayoutNode → String → String → SplitDirection → String → Option LayoutNode
unfolding create_group
split_group n src tab_id direction new_id = elim (find_group n src) [
  | none ↦ none
  | some g ↦
      if not (includes g.tab_ids tab_id)
      then none
      else some (
          split_tree n src (direction_orientation direction) (direction_before direction)
            (create_group new_id (tab_id ∷ []) (some tab_id)))
]

unfoldable pub append_child : Forest → LayoutNode → Forest
append_child nil n = cons n nil
append_child (cons c cs) n = cons c (append_child cs n)

abbrev pub at_edge : Side → GroupNode → Forest → Forest
at_edge right new cs = append_child cs (group new)
at_edge left new cs = cons (group new) cs

abbrev pub beside : Side → GroupNode → LayoutNode → Forest
beside right new n = cons n (cons (group new) nil)
beside left new n = cons (group new) (cons n nil)

unfoldable pub place_at : LayoutNode → GroupNode → Side → LayoutNode
place_at (group g) new side = split (fresh_head new.id row) (beside side new (group g))
place_at (split s cs) new side =
    if same_orientation s.orientation row
    then split s (at_edge side new cs)
    else split (fresh_head new.id row) (beside side new (split s cs))

unfoldable pub place_tab_at_edge : LayoutNode → String → Side → String → LayoutNode
unfolding create_group
place_tab_at_edge n tab_id side new_id =
    place_at n (create_group new_id (tab_id ∷ []) (some tab_id)) side

unfoldable pub split_to_edge : LayoutNode → String → Side → String → Option LayoutNode
split_to_edge n tab_id side new_id =
    if is_some (find_group_of_tab n tab_id)
    then some (place_tab_at_edge n tab_id side new_id)
    else none
