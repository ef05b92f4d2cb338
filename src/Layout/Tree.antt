-- ===== src/Layout/Tree.antt =====
-- frontend/src/components/ide/ideLayout.ts: the tree of split panes, and its traversals.
use sqlwarden.Common.{
  ℕ, Bool, false, List, [], ◌∷◌, ◌++◌, Option, none, String, if◌then◌else◌, ◌==◌, or_else, length,
  get_elem?, get_last?, find, includes, nat_eq, string_eq, option_eq,
}

pub record GroupNode : Type 0 where
  pub id : String
  pub tab_ids : List String
  pub active_tab_id : Option String

pub data Orientation : Type 0 where
  row column : Orientation

-- A split node without its children. The sizes are stored and never computed with.
pub record SplitHead : Type 0 where
  pub id : String
  pub orientation : Orientation
  pub sizes : Option (List ℕ)

mutual
  pub data LayoutNode : Type 0 where
    group : GroupNode → LayoutNode
    split : SplitHead → Forest → LayoutNode

  pub data Forest : Type 0 where
    nil : Forest
    cons : LayoutNode → Forest → Forest

unfoldable pub create_group : String → List String → Option String → GroupNode
create_group id tabs active = record {
  id = id;
  tab_ids = tabs;
  active_tab_id = or_else active (get_last? tabs);
}

unfoldable mutual
  pub all_groups : LayoutNode → List GroupNode
  all_groups (group g) = g ∷ []
  all_groups (split s cs) = all_groups_in cs

  pub all_groups_in : Forest → List GroupNode
  all_groups_in nil = []
  all_groups_in (cons c cs) = all_groups c ++ all_groups_in cs

unfoldable pub find_group : LayoutNode → String → Option GroupNode
find_group n group_id = find (λ g. g.id == group_id) (all_groups n)

unfoldable pub find_group_of_tab : LayoutNode → String → Option GroupNode
find_group_of_tab n tab_id = find (λ g. includes g.tab_ids tab_id) (all_groups n)

-- `none` is the `undefined` of an empty array.
unfoldable pub first_group : LayoutNode → Option GroupNode
first_group n = get_elem? (all_groups n) 0

unfoldable mutual
  pub map_groups : (GroupNode → GroupNode) → LayoutNode → LayoutNode
  map_groups f (group g) = group (f g)
  map_groups f (split s cs) = split s (map_groups_in f cs)

  pub map_groups_in : (GroupNode → GroupNode) → Forest → Forest
  map_groups_in f nil = nil
  map_groups_in f (cons c cs) = cons (map_groups f c) (map_groups_in f cs)

unfoldable pub is_empty_group : LayoutNode → Bool
is_empty_group (group g) = length g.tab_ids == 0
is_empty_group (split s cs) = false

-- The `filter` of `normalize`.
unfoldable pub keep_full : Forest → Forest
keep_full nil = nil
keep_full (cons c cs) = if is_empty_group c then keep_full cs else cons c (keep_full cs)

first_id : List GroupNode → String → String
first_id [] d = d
first_id (g ∷ gs) d = g.id

-- The end of `normalize`, over the groups before and the children kept.
unfoldable pub collapse : SplitHead → List GroupNode → Forest → LayoutNode
unfolding first_id create_group
collapse s gs nil = group (create_group (first_id gs s.id) [] none)
collapse s gs (cons c nil) = c
collapse s gs (cons c (cons d ds)) = split s (cons c (cons d ds))

unfoldable mutual
  pub normalize : LayoutNode → LayoutNode
  normalize (group g) = group g
  normalize (split s cs) = collapse s (all_groups_in cs) (keep_full (normalize_each cs))

  pub normalize_each : Forest → Forest
  normalize_each nil = nil
  normalize_each (cons c cs) = cons (normalize c) (normalize_each cs)

unfoldable pub migrate_to_layout : String → List String → Option String → LayoutNode
migrate_to_layout group_id tabs active = group (create_group group_id tabs active)
