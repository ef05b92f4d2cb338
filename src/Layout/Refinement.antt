-- ===== src/Layout/Refinement.antt =====
-- `splitGroup` against its description on the list of panes: the new pane stands beside the source.
use sqlwarden.Common.{
  ◌≡◌, refl, sym, ap, ◌∙◌, Bool, true, false, List, [], ◌∷◌, ◌++◌, some, String, if◌then◌else◌,
  ◌==◌, arith, string_eq, nat_eq, inl, inr, Bool-cases, ℕ, ◌+◌, ◌≤◌, ap₂, includes,
}
use sqlwarden.Layout.Tree.{
  GroupNode, Orientation, LayoutNode, group, split, Forest, nil, cons, all_groups, all_groups_in,
  create_group, find_group,
}
use sqlwarden.Layout.Splits.{
  insert_beside, wrap_child, wrap, place_beside, transform, transform_each, has_child, is_group,
  split_tree, split_group, same_orientation, SplitDirection, direction_before,
  direction_orientation,
}
use sqlwarden.Layout.Normal.{IsNormal, has_tabs}
use sqlwarden.Layout.Splitting.{normalize-transform}

-- How many panes have the id.
abbrev pub count_id : String → List GroupNode → ℕ
count_id src [] = 0
count_id src (g ∷ gs) = (if g.id == src then 1 else 0) + count_id src gs

module _ (src : String) where
  count_id-append :
      (xs ys : List GroupNode) → count_id src (xs ++ ys) ≡ count_id src xs + count_id src ys
  count_id-append [] ys = omega arith
  count_id-append (x ∷ xs) ys = omega (arith, count_id-append xs ys)

module _ (src : String) (first : Bool) (new : GroupNode) where
  abbrev pub put_beside : List GroupNode → List GroupNode
  put_beside [] = []
  put_beside (g ∷ gs) =
      if g.id == src then (if first then new ∷ g ∷ gs else g ∷ new ∷ gs) else g ∷ put_beside gs

  put_beside_of_none : (xs : List GroupNode) → count_id src xs ≡ 0 → put_beside xs ≡ xs
  put_beside_of_none [] h = refl
  put_beside_of_none (x ∷ xs) h = ground (arith, put_beside_of_none xs)

  put_beside-append_left :
      (xs ys : List GroupNode) → count_id src xs ≡ 0 → put_beside (xs ++ ys) ≡ xs ++ put_beside ys
  put_beside-append_left [] ys h = refl
  put_beside-append_left (x ∷ xs) ys h = ground (arith, put_beside-append_left xs ys)

  put_beside-append_right :
      (xs ys : List GroupNode) → 1 ≤ count_id src xs → put_beside (xs ++ ys) ≡ put_beside xs ++ ys
  put_beside-append_right [] ys h = absurd (omega arith)
  put_beside-append_right (x ∷ xs) ys h = ground (arith, put_beside-append_right xs ys)

  put_beside-append :
      (xs ys : List GroupNode)
      → count_id src xs + count_id src ys ≤ 1
      → put_beside (xs ++ ys) ≡ put_beside xs ++ put_beside ys
  put_beside-append xs ys h = elim (Bool-cases (count_id src xs == 0)) [
    | inl e ↦
        put_beside-append_left xs ys (ground arith)
        ∙ ap (λ zs. zs ++ put_beside ys) (sym (put_beside_of_none xs (ground arith)))
    | inr e ↦
        put_beside-append_right xs ys (ground arith)
        ∙ ap (◌++◌ (put_beside xs)) (sym (put_beside_of_none ys (ground arith)))
  ]

  is_group-count : (c : LayoutNode) → is_group src c ≡ true → 1 ≤ count_id src (all_groups c)
  unfolding is_group all_groups
  is_group-count (group g) h = ground arith
  is_group-count (split s cs) h = cc

  has_child-count : (cs : Forest) → has_child src cs ≡ true → 1 ≤ count_id src (all_groups_in cs)
  unfolding has_child all_groups
  has_child-count nil h = cc
  has_child-count (cons c cs) h =
      let sum = count_id-append src (all_groups c) (all_groups_in cs) in
      elim (Bool-cases (is_group src c)) [
        | inl e ↦ omega (arith, sum, is_group-count c e)
        | inr e ↦ omega (arith, sum, has_child-count cs (ground arith))
      ]

  -- The head of a forest is no source: the pane goes into the rest.
  later :
      (c : LayoutNode) (cs : Forest) (r : List GroupNode)
      → has_child src cs ≡ true
      → count_id src (all_groups_in (cons c cs)) ≤ 1
      → r ≡ put_beside (all_groups_in cs)
      → all_groups c ++ r ≡ put_beside (all_groups_in (cons c cs))
  unfolding all_groups
  later c cs r h k e = rw e (
      sym (
        put_beside-append_left (all_groups c) (all_groups_in cs) (
          omega
            (arith, count_id-append src (all_groups c) (all_groups_in cs), has_child-count cs h))))

  all_groups-insert_beside :
      (cs : Forest)
      → has_child src cs ≡ true
      → count_id src (all_groups_in cs) ≤ 1
      → all_groups_in (insert_beside src first new cs) ≡ put_beside (all_groups_in cs)
  unfolding insert_beside all_groups is_group has_child
  all_groups-insert_beside nil h k = cc
  all_groups-insert_beside (cons (group g) cs) h k = elim (Bool-cases (g.id == src)) [
    | inl e ↦ elim (Bool-cases first) [ inl f ↦ rw (e, f) | inr f ↦ rw (e, f) ]
    | inr e ↦ rw e (ap (λ xs. g ∷ xs) (all_groups-insert_beside cs (ground arith) (ground arith)))
  ]
  all_groups-insert_beside (cons (split s ds) cs) h k = later (split s ds) cs _ h k (
      all_groups-insert_beside cs h
        (omega (arith, count_id-append src (all_groups_in ds) (all_groups_in cs))))

  module _ (orientation : Orientation) where
    all_groups-wrap :
        (g : GroupNode)
        → (g.id == src) ≡ true
        → all_groups (wrap new.id orientation first new (group g)) ≡ put_beside (g ∷ [])
    unfolding wrap all_groups
    all_groups-wrap g e = elim (Bool-cases first) [ inl f ↦ rw (e, f) | inr f ↦ rw (e, f) ]

    all_groups-wrap_child :
        (cs : Forest)
        → has_child src cs ≡ true
        → count_id src (all_groups_in cs) ≤ 1
        → all_groups_in (wrap_child src (wrap new.id orientation first new) cs)
          ≡ put_beside (all_groups_in cs)
    unfolding wrap_child all_groups is_group has_child
    all_groups-wrap_child nil h k = cc
    all_groups-wrap_child (cons (group g) cs) h k = elim (Bool-cases (g.id == src)) [
      | inl e ↦
          rw (e, wrap_child)
            (ap (λ xs. xs ++ all_groups_in cs) (all_groups-wrap g e)
              ∙ sym (put_beside-append_right (g ∷ []) (all_groups_in cs) (ground arith))
              ∙ (rw e))
      | inr e ↦ rw e (ap (λ xs. g ∷ xs) (all_groups-wrap_child cs (ground arith) (ground arith)))
    ]
    all_groups-wrap_child (cons (split s ds) cs) h k = later (split s ds) cs _ h k (
        all_groups-wrap_child cs h
          (omega (arith, count_id-append src (all_groups_in ds) (all_groups_in cs))))

    mutual
      unfolding transform place_beside all_groups is_group has_child

      all_groups-transform_lem :
          (n : LayoutNode)
          → is_group src n ≡ false
          → count_id src (all_groups n) ≤ 1
          → all_groups (transform src orientation first new n) ≡ put_beside (all_groups n)
      all_groups-transform_lem (group g) h k = rw h
      all_groups-transform_lem (split s cs) h k = elim (Bool-cases (has_child src cs)) [
        | inl e ↦ elim (Bool-cases (same_orientation s.orientation orientation)) [
          | inl o ↦ rw (e, o, place_beside) (all_groups-insert_beside cs e k)
          | inr o ↦ rw (e, o, place_beside) (all_groups-wrap_child cs e k)
        ]
        | inr e ↦ rw e (all_groups-transform_each cs e k)
      ]

      all_groups-transform_each :
          (cs : Forest)
          → has_child src cs ≡ false
          → count_id src (all_groups_in cs) ≤ 1
          → all_groups_in (transform_each src orientation first new cs)
            ≡ put_beside (all_groups_in cs)
      all_groups-transform_each nil h k = refl
      all_groups-transform_each (cons c cs) h k =
          let sum = count_id-append src (all_groups c) (all_groups_in cs) in
          ap₂ ◌++◌ (all_groups-transform_lem c (ground arith) (omega (arith, sum)))
            (all_groups-transform_each cs (ground arith) (omega (arith, sum)))
          ∙ sym (put_beside-append (all_groups c) (all_groups_in cs) (omega (arith, sum)))

all_groups-split_tree :
    (n : LayoutNode) (src : String) (orientation : Orientation) (first : Bool) (new g : GroupNode)
    → has_tabs new ≡ true
    → IsNormal n
    → count_id src (all_groups n) ≤ 1
    → find_group n src ≡ some g
    → all_groups (split_tree n src orientation first new) ≡ put_beside src first new (all_groups n)
unfolding all_groups find_group
all_groups-split_tree (group d) src orientation first new g full h k found =
    all_groups-wrap src first new orientation d (ground arith)
all_groups-split_tree (split s cs) src orientation first new g full h k found =
    ap all_groups (normalize-transform src orientation first new full (split s cs) h)
    ∙ all_groups-transform_lem src first new orientation (split s cs) (unfold is_group in refl) k

-- In a normal layout where the source's id belongs to one pane and that pane shows the tab,
-- `splitGroup` succeeds, and the panes of its result are the old ones in their order with a new one,
-- which holds just that tab, directly beside the source: before it for `left` and `up`, else after it.
pub split_group-put_beside :
    (n : LayoutNode) (src t : String) (direction : SplitDirection) (new_id : String) (g : GroupNode)
    → IsNormal n
    → count_id src (all_groups n) ≤ 1
    → find_group n src ≡ some g
    → includes g.tab_ids t ≡ true
    → (m : LayoutNode) × (split_group n src t direction new_id ≡ some m)
      × (all_groups m
          ≡ put_beside src
              (direction_before direction)
              (create_group new_id (t ∷ []) (some t))
              (all_groups n))
unfolding split_group
split_group-put_beside n src t direction new_id g h k found shown =
    let first = direction_before direction in
    let orientation = direction_orientation direction in
    let new = create_group new_id (t ∷ []) (some t) in
    (
      split_tree n src orientation first new,
      rw (found, split_group, shown),
      all_groups-split_tree n src orientation first new g (unfold create_group in refl) h k found,
    )
