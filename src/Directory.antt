-- ===== src/Directory.antt =====
-- frontend/src/components/ide/schemaDirectory.ts: the tree of scopes and objects in the schema browser.
-- A node without children is a leaf, and one with a list of them a branch. What the API sends may have
-- `null` for a collection; that is a raw node. `trim`, `lower` and `locale_less` stand for `trim`,
-- `toLowerCase` and a negative `localeCompare`.
pub mod Filtering
use text.Mathlib.Text.{find?}
use sqlwarden.Api.{ObjectRef, ScopePath}
use sqlwarden.Common.{
  ℕ, Bool, true, false, List, [], ◌∷◌, map, filter, any, Option, none, some, String, if◌then◌else◌,
  ◌==◌, string_eq, nat_eq, ltb, length, is_some, get_or_else, ◌||◌, ◌&&◌, find,
}

-- frontend/src/lib/api/types.ts
pub record ObjectGroup : Type 0 where
  pub kind : String
  pub objects : List ObjectRef

mutual
  pub data ScopeNode : Type 0 where
    leaf : ScopePath → List ObjectGroup → ScopeNode
    branch : ScopePath → List ObjectGroup → ScopeNodes → ScopeNode

  pub data ScopeNodes : Type 0 where
    nil : ScopeNodes
    cons : ScopeNode → ScopeNodes → ScopeNodes

pub record RawGroup : Type 0 where
  pub kind : String
  pub objects : Option (List ObjectRef)

mutual
  pub data RawNode : Type 0 where
    raw_leaf : ScopePath → Option (List RawGroup) → RawNode
    raw_branch : ScopePath → Option (List RawGroup) → RawNodes → RawNode

  pub data RawNodes : Type 0 where
    raw_nil : RawNodes
    raw_cons : RawNode → RawNodes → RawNodes

pub data Listing : Type 0 where
  enumerated searched : Listing

pub record SchemaObjectKind : Type 0 where
  pub kind : String
  pub label : String
  pub plural_label : String
  pub order : ℕ
  pub relational : Bool
  pub supports_diagram : Bool
  pub listing : Listing

unfoldable pub normalize_groups : Option (List RawGroup) → List ObjectGroup
normalize_groups none = []
normalize_groups (some groups) =
    map (λ group. record { kind = group.kind; objects = get_or_else group.objects [] }) groups

unfoldable mutual
  pub normalize_node : RawNode → ScopeNode
  normalize_node (raw_leaf path groups) = leaf path (normalize_groups groups)
  normalize_node (raw_branch path groups children) =
      branch path (normalize_groups groups) (normalize_nodes children)

  pub normalize_nodes : RawNodes → ScopeNodes
  normalize_nodes raw_nil = nil
  normalize_nodes (raw_cons node nodes) = cons (normalize_node node) (normalize_nodes nodes)

unfoldable pub has_objects : ObjectGroup → Bool
has_objects group = ltb 0 (length group.objects)

unfoldable mutual
  pub has_node_objects : ScopeNode → Bool
  has_node_objects (leaf path groups) = any has_objects groups || false
  has_node_objects (branch path groups children) =
      any has_objects groups || has_directory_objects children

  pub has_directory_objects : ScopeNodes → Bool
  has_directory_objects nil = false
  has_directory_objects (cons node nodes) = has_node_objects node || has_directory_objects nodes

unfoldable pub path_of : ScopeNode → ScopePath
path_of (leaf path groups) = path
path_of (branch path groups children) = path

-- The children of a sole root.
unfoldable pub sole_scope : ScopePath → ScopeNodes → Option ScopePath
sole_scope root nil = some root
sole_scope root (cons child nil) = some (path_of child)
sole_scope root (cons child (cons other rest)) = none

unfoldable pub default_create_table_scope : ScopeNodes → Option ScopePath
default_create_table_scope nil = none
default_create_table_scope (cons (leaf path groups) nil) = some path
default_create_table_scope (cons (branch path groups children) nil) = sole_scope path children
default_create_table_scope (cons node (cons other rest)) = none

unfoldable pub max_safe_integer : ℕ
max_safe_integer = 9007199254740991

-- A missing specification has no kinds.
unfoldable pub kind_order : List SchemaObjectKind → String → ℕ
kind_order kinds kind = elim (find (λ k. k.kind == kind) kinds) [
  | none ↦ max_safe_integer
  | some k ↦ k.order
]

-- Whether the comparison of `sortedGroups` is negative.
unfoldable pub comes_before :
    (String → String → Bool) → List SchemaObjectKind → ObjectGroup → ObjectGroup → Bool
comes_before locale_less kinds a b =
    let x = kind_order kinds a.kind in
    let y = kind_order kinds b.kind in ltb x y || (x == y && locale_less a.kind b.kind)

-- `Array.prototype.sort` keeps the order of equal elements.
unfoldable pub place_group :
    (String → String → Bool)
    → List SchemaObjectKind
    → ObjectGroup
    → List ObjectGroup
    → List ObjectGroup
place_group locale_less kinds group [] = group ∷ []
place_group locale_less kinds group (other ∷ groups) =
    if comes_before locale_less kinds other group
    then other ∷ place_group locale_less kinds group groups
    else group ∷ other ∷ groups

unfoldable pub sort_groups :
    (String → String → Bool) → List SchemaObjectKind → List ObjectGroup → List ObjectGroup
sort_groups locale_less kinds [] = []
sort_groups locale_less kinds (group ∷ groups) =
    place_group locale_less kinds group (sort_groups locale_less kinds groups)

unfoldable pub groups_of : ScopeNode → List ObjectGroup
groups_of (leaf path groups) = groups
groups_of (branch path groups children) = groups

unfoldable pub sorted_groups :
    (String → String → Bool) → ScopeNode → List SchemaObjectKind → List ObjectGroup
sorted_groups locale_less node kinds = sort_groups locale_less kinds (groups_of node)

-- A node that still has a group or a child.
unfoldable pub is_kept : ScopeNode → Bool
is_kept (leaf path groups) = ltb 0 (length groups)
is_kept (branch path groups nil) = ltb 0 (length groups)
is_kept (branch path groups (cons child children)) = true

module _ (lower : String → String) where
  -- `object.name.toLowerCase().includes(query)`.
  unfoldable pub matches : String → ObjectRef → Bool
  matches query object = is_some (find? (lower object.name) query)

  unfoldable pub filter_groups : String → List ObjectGroup → List ObjectGroup
  filter_groups query groups = filter has_objects (
      map (λ group. record { kind = group.kind; objects = filter (matches query) group.objects })
        groups)

  unfoldable mutual
    pub filter_node : String → ScopeNode → ScopeNode
    filter_node query (leaf path groups) = branch path (filter_groups query groups) nil
    filter_node query (branch path groups children) =
        branch path (filter_groups query groups) (filter_nodes query children)

    pub filter_nodes : String → ScopeNodes → ScopeNodes
    filter_nodes query nil = nil
    filter_nodes query (cons node nodes) =
        let kept = filter_node query node in
        let rest = filter_nodes query nodes in if is_kept kept then cons kept rest else rest

  -- The roots of the filtered directory; its other fields stay.
  unfoldable pub filter_directory : (String → String) → Option RawNodes → String → ScopeNodes
  filter_directory trim roots query =
      let nodes : ScopeNodes = elim roots [ none ↦ nil | some raw ↦ normalize_nodes raw ] in
      let q = lower (trim query) in if q == "" then nodes else filter_nodes q nodes
