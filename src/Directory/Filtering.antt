-- ===== src/Directory/Filtering.antt =====
-- What the filter of the schema browser keeps.
use sqlwarden.Api.{ObjectRef, ScopePath}
use sqlwarden.Directory.{
  ObjectGroup, ScopeNode, ScopeNodes, leaf, branch, nil, cons, has_objects, has_node_objects,
  has_directory_objects, matches, filter_groups, filter_node, filter_nodes, is_kept,
}
use sqlwarden.Common.{
  true, false, List, [], ◌∷◌, ◌++◌, map, filter, any, String, ◌≡◌, refl, arith, filter-append,
  Bool-cases, inl, inr, ltb, length, ◌||◌, append-nil, ◌∙◌, ap₂, ap, sym, length-eq-zero,
}

-- The objects of a list of groups, and of a tree: of a node first, then of its children.
unfoldable pub objects_of_groups : List ObjectGroup → List ObjectRef
objects_of_groups [] = []
objects_of_groups (group ∷ groups) = group.objects ++ objects_of_groups groups

unfoldable mutual
  pub objects_of_node : ScopeNode → List ObjectRef
  objects_of_node (leaf path groups) = objects_of_groups groups
  objects_of_node (branch path groups children) =
      objects_of_groups groups ++ objects_of_nodes children

  pub objects_of_nodes : ScopeNodes → List ObjectRef
  objects_of_nodes nil = []
  objects_of_nodes (cons node nodes) = objects_of_node node ++ objects_of_nodes nodes

-- Every node has an object in it or below it.
mutual
  pub IsFilled : ScopeNode → Type 0
  IsFilled (leaf path groups) = any has_objects groups ≡ true
  IsFilled (branch path groups children) =
      ((any has_objects groups || has_directory_objects children) ≡ true) × AreFilled children

  pub AreFilled : ScopeNodes → Type 0
  AreFilled nil = Unit
  AreFilled (cons node nodes) = IsFilled node × AreFilled nodes

-- Groups that hold nothing can be left out.
objects-filter-has_objects :
    (groups : List ObjectGroup)
    → objects_of_groups (filter has_objects groups) ≡ objects_of_groups groups
unfolding objects_of_groups has_objects
objects-filter-has_objects [] = refl
objects-filter-has_objects (group ∷ groups) = elim (Bool-cases (has_objects group)) [
  | inl t ↦ rw t (ap (◌++◌ group.objects) (objects-filter-has_objects groups))
  | inr f ↦
      let none_there : group.objects ≡ [] = length-eq-zero group.objects (ground (arith, f)) in
      rw (f, none_there) (objects-filter-has_objects groups)
]

objects-not_kept : (node : ScopeNode) → is_kept node ≡ false → objects_of_node node ≡ []
unfolding is_kept objects_of_node objects_of_groups
objects-not_kept (leaf path []) h = refl
objects-not_kept (leaf path (group ∷ groups)) h = ground arith
objects-not_kept (branch path [] nil) h = refl
objects-not_kept (branch path (group ∷ groups) nil) h = ground arith
objects-not_kept (branch path groups (cons child children)) h = cc

IsFilled-has_objects : (node : ScopeNode) → IsFilled node → has_node_objects node ≡ true
unfolding has_node_objects IsFilled
IsFilled-has_objects (leaf path groups) h = ground (arith, h)
IsFilled-has_objects (branch path groups children) (h, _) = h

any-filter_kept :
    (groups : List ObjectGroup)
    → ltb 0 (length (filter has_objects groups)) ≡ true
    → any has_objects (filter has_objects groups) ≡ true
any-filter_kept [] h = ground arith
any-filter_kept (group ∷ groups) h = ground (arith, any-filter_kept groups)

module _ (lower : String → String) (query : String) where
  objects-map :
      (groups : List ObjectGroup)
      → objects_of_groups (
          map
            (λ group. record {
              kind = group.kind;
              objects = filter (matches lower query) group.objects;
            })
            groups)
        ≡ filter (matches lower query) (objects_of_groups groups)
  unfolding objects_of_groups
  objects-map [] = refl
  objects-map (group ∷ groups) = rw (objects-map groups, filter-append (matches lower query)) refl

  objects-filter_groups :
      (groups : List ObjectGroup)
      → objects_of_groups (filter_groups lower query groups)
        ≡ filter (matches lower query) (objects_of_groups groups)
  unfolding filter_groups
  objects-filter_groups groups = objects-filter-has_objects _ ∙ objects-map groups

  mutual
    unfolding filter_node objects_of_node

    objects-filter_node :
        (node : ScopeNode)
        → objects_of_node (filter_node lower query node)
          ≡ filter (matches lower query) (objects_of_node node)
    objects-filter_node (leaf path groups) = append-nil _ ∙ objects-filter_groups groups
    objects-filter_node (branch path groups children) =
        rw
          (
            objects-filter_groups groups,
            objects-filter_nodes_lem children,
            filter-append (matches lower query),
          )
          refl

    objects-filter_nodes_lem :
        (nodes : ScopeNodes)
        → objects_of_nodes (filter_nodes lower query nodes)
          ≡ filter (matches lower query) (objects_of_nodes nodes)
    objects-filter_nodes_lem nil = refl
    objects-filter_nodes_lem (cons node nodes) =
        elim (Bool-cases (is_kept (filter_node lower query node))) [
          | inl t ↦
              rw (t, filter-append (matches lower query))
                (ap₂ ◌++◌ (objects-filter_node node) (objects-filter_nodes_lem nodes))
          | inr f ↦
              let gone = sym (objects-filter_node node) ∙ objects-not_kept _ f in
              rw (f, filter-append (matches lower query), gone) (objects-filter_nodes_lem nodes)
        ]

  IsFilled-branch :
      (path : ScopePath) (groups : List ObjectGroup) (children : ScopeNodes)
      → is_kept (branch path (filter_groups lower query groups) children) ≡ true
      → AreFilled children
      → IsFilled (branch path (filter_groups lower query groups) children)
  unfolding is_kept IsFilled has_node_objects filter_groups
  IsFilled-branch path groups nil h c = (ground (arith, any-filter_kept _ h), tt)
  IsFilled-branch path groups (cons child children) h (c, cs) =
      (ground (arith, IsFilled-has_objects child c), (c, cs))

  mutual
    unfolding filter_node IsFilled

    filter_node-IsFilled :
        (node : ScopeNode)
        → is_kept (filter_node lower query node) ≡ true
        → IsFilled (filter_node lower query node)
    filter_node-IsFilled (leaf path groups) h = IsFilled-branch path groups nil h tt
    filter_node-IsFilled (branch path groups children) h =
        IsFilled-branch path groups _ h (filter_nodes-AreFilled children)

    filter_nodes-AreFilled : (nodes : ScopeNodes) → AreFilled (filter_nodes lower query nodes)
    filter_nodes-AreFilled nil = tt
    filter_nodes-AreFilled (cons node nodes) =
        elim (Bool-cases (is_kept (filter_node lower query node))) [
          | inl t ↦ rw t (filter_node-IsFilled node t, filter_nodes-AreFilled nodes)
          | inr f ↦ rw f (filter_nodes-AreFilled nodes)
        ]

  -- The filter of the schema browser keeps exactly the objects whose names contain the query, in their
  -- order, and every node that is left has an object in it or below it.
  pub filter_nodes-objects :
      (nodes : ScopeNodes)
      → (objects_of_nodes (filter_nodes lower query nodes)
          ≡ filter (matches lower query) (objects_of_nodes nodes))
        × AreFilled (filter_nodes lower query nodes)
  filter_nodes-objects nodes = (objects-filter_nodes_lem nodes, filter_nodes-AreFilled nodes)
