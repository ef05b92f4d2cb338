-- ===== src/Layout/Splitting.antt =====
-- Opening a pane: the shape of the tree after `splitGroup`, and its panes.
use sqlwarden.Layout.Flat.{All-normalize}
use sqlwarden.Common.{
  ◌≡◌, refl, Bool, true, false, [], none, String, arith, All, string_eq, inl, inr, Bool-cases,
  All-append, All-append_left, All-append_right, if_both,
}
use sqlwarden.Layout.Tree.{
  GroupNode, SplitHead, Orientation, LayoutNode, group, split, Forest, nil, cons, all_groups,
  all_groups_in, is_empty_group, normalize, create_group,
}
use sqlwarden.Layout.Splits.{
  insert_beside, wrap_child, wrap, place_beside, transform, transform_each, has_child, is_group,
  split_tree, same_orientation, pair,
}
use sqlwarden.Layout.Normal.{IsNormal, AreFull, has_tabs, normalize_of_IsNormal}

module _ (src : String) (orientation : Orientation) (first : Bool) (new : GroupNode)
    (full : has_tabs new ≡ true) where
  wrap-IsNormal :
      (c : LayoutNode)
      → is_empty_group c ≡ false
      → IsNormal c
      → IsNormal (wrap new.id orientation first new c)
  unfolding wrap is_empty_group
  wrap-IsNormal c e h = elim (Bool-cases first) [
    | inl f ↦ rw f (ground arith, tt, (e, h, tt))
    | inr f ↦ rw f (e, h, (ground arith, tt, tt))
  ]

  insert_beside-AreFull : (cs : Forest) → AreFull cs → AreFull (insert_beside src first new cs)
  unfolding insert_beside is_empty_group
  insert_beside-AreFull nil h = tt
  insert_beside-AreFull (cons c cs) (e, p, h) = elim (Bool-cases (is_group src c)) [
    | inl g ↦ elim (Bool-cases first) [
      | inl f ↦ rw (g, f) (ground arith, tt, (e, p, h))
      | inr f ↦ rw (g, f) (e, p, (ground arith, tt, h))
    ]
    | inr g ↦ rw g (e, p, insert_beside-AreFull cs h)
  ]

  is_empty-wrap : (c : LayoutNode) → is_empty_group (wrap new.id orientation first new c) ≡ false
  unfolding wrap is_empty_group
  is_empty-wrap c = refl

  wrap_child-AreFull :
      (cs : Forest) → AreFull cs → AreFull (wrap_child src (wrap new.id orientation first new) cs)
  unfolding wrap_child
  wrap_child-AreFull nil h = tt
  wrap_child-AreFull (cons c cs) (e, p, h) = elim (Bool-cases (is_group src c)) [
    | inl g ↦ rw g (is_empty-wrap c, wrap-IsNormal c e p, h)
    | inr g ↦ rw g (e, p, wrap_child-AreFull cs h)
  ]

  -- Two children at least.
  abbrev HasTwo : Forest → Type 0
  HasTwo nil = ⊥
  HasTwo (cons c nil) = ⊥
  HasTwo (cons c (cons d ds)) = Unit

  IsNormal-split : (s : SplitHead) (cs : Forest) → HasTwo cs → AreFull cs → IsNormal (split s cs)
  IsNormal-split s nil t h = elim t [ ]
  IsNormal-split s (cons c nil) t h = elim t [ ]
  IsNormal-split s (cons c (cons d ds)) t h = h

  insert_beside-HasTwo : (cs : Forest) → HasTwo cs → HasTwo (insert_beside src first new cs)
  unfolding insert_beside
  insert_beside-HasTwo nil h = elim h [ ]
  insert_beside-HasTwo (cons c nil) h = elim h [ ]
  insert_beside-HasTwo (cons c (cons d ds)) h =
      if_both HasTwo (is_group src c) (if_both HasTwo first tt tt) (
        if_both (λ f. HasTwo (cons c f)) (is_group src d)
          (if_both (λ f. HasTwo (cons c f)) first tt tt) tt)

  wrap_child-HasTwo :
      (w : LayoutNode → LayoutNode) (cs : Forest) → HasTwo cs → HasTwo (wrap_child src w cs)
  unfolding wrap_child
  wrap_child-HasTwo w nil h = elim h [ ]
  wrap_child-HasTwo w (cons c nil) h = elim h [ ]
  wrap_child-HasTwo w (cons c (cons d ds)) h =
      if_both HasTwo (is_group src c) tt (if_both (λ f. HasTwo (cons c f)) (is_group src d) tt tt)

  place_beside-IsNormal :
      (s : SplitHead) (cs : Forest)
      → HasTwo cs
      → AreFull cs
      → IsNormal (place_beside src orientation first new s cs)
  unfolding place_beside
  place_beside-IsNormal s cs t h =
      if_both IsNormal (same_orientation s.orientation orientation)
        (IsNormal-split s _ (insert_beside-HasTwo cs t) (insert_beside-AreFull cs h))
        (IsNormal-split s _ (wrap_child-HasTwo _ cs t) (wrap_child-AreFull cs h))

  is_empty-place_beside :
      (s : SplitHead) (cs : Forest)
      → is_empty_group (place_beside src orientation first new s cs) ≡ false
  unfolding place_beside is_empty_group
  is_empty-place_beside s cs =
      if_both (λ n. is_empty_group n ≡ false) (same_orientation s.orientation orientation) refl refl

  is_empty-transform :
      (n : LayoutNode)
      → is_empty_group n ≡ false
      → is_empty_group (transform src orientation first new n) ≡ false
  unfolding transform
  is_empty-transform (group g) e = e
  is_empty-transform (split s cs) e =
      if_both (λ n. is_empty_group n ≡ false) (has_child src cs) (is_empty-place_beside s cs)
        (unfold is_empty_group in refl)

  mutual
    unfolding transform

    transform-IsNormal_lem :
        (n : LayoutNode) → IsNormal n → IsNormal (transform src orientation first new n)
    transform-IsNormal_lem (group g) h = tt
    transform-IsNormal_lem (split s nil) h = elim h [ ]
    transform-IsNormal_lem (split s (cons c nil)) h = elim h [ ]
    transform-IsNormal_lem (split s (cons c (cons d ds))) h =
        if_both IsNormal (has_child src (cons c (cons d ds)))
          (place_beside-IsNormal s (cons c (cons d ds)) tt h)
          (transform-AreFull (cons c (cons d ds)) h)

    transform-AreFull :
        (cs : Forest) → AreFull cs → AreFull (transform_each src orientation first new cs)
    transform-AreFull nil h = tt
    transform-AreFull (cons c cs) (e, p, h) =
        (is_empty-transform c e, transform-IsNormal_lem c p, transform-AreFull cs h)

  pub split_tree-IsNormal :
      (n : LayoutNode)
      → is_empty_group n ≡ false
      → IsNormal n
      → IsNormal (split_tree n src orientation first new)
  split_tree-IsNormal (group g) e h = wrap-IsNormal (group g) e h
  split_tree-IsNormal (split s cs) e h =
      rw (normalize_of_IsNormal _ (transform-IsNormal_lem (split s cs) h))
        (transform-IsNormal_lem (split s cs) h)

  -- `normalize` does nothing after `transform`.
  pub normalize-transform :
      (n : LayoutNode)
      → IsNormal n
      → normalize (transform src orientation first new n) ≡ transform src orientation first new n
  normalize-transform n h = normalize_of_IsNormal _ (transform-IsNormal_lem n h)

module _ {ℓ} (P : GroupNode → Type ℓ) (src : String) (orientation : Orientation) (first : Bool)
    (new : GroupNode) (h : P new) where
  All-wrap :
      (c : LayoutNode)
      → All P (all_groups c)
      → All P (all_groups (wrap new.id orientation first new c))
  unfolding wrap all_groups
  All-wrap c k = elim first as (λ b. All P (all_groups_in (pair b (group new) c))) [
    | true ↦ (h, All-append P (all_groups c) [] k tt)
    | false ↦ All-append P (all_groups c) _ k (h, tt)
  ]

  All-insert_beside :
      (cs : Forest)
      → All P (all_groups_in cs)
      → All P (all_groups_in (insert_beside src first new cs))
  unfolding insert_beside all_groups
  All-insert_beside nil k = tt
  All-insert_beside (cons c cs) k =
      let kl = All-append_left P (all_groups c) (all_groups_in cs) k in
      let kr = All-append_right P (all_groups c) (all_groups_in cs) k in
      if_both (λ f. All P (all_groups_in f)) (is_group src c)
        (if_both (λ f. All P (all_groups_in f)) first (h, k)
          (All-append P (all_groups c) _ kl (h, kr)))
        (All-append P (all_groups c) _ kl (All-insert_beside cs kr))

  All-wrap_child :
      (cs : Forest)
      → All P (all_groups_in cs)
      → All P (all_groups_in (wrap_child src (wrap new.id orientation first new) cs))
  unfolding wrap_child all_groups
  All-wrap_child nil k = tt
  All-wrap_child (cons c cs) k =
      let kl = All-append_left P (all_groups c) (all_groups_in cs) k in
      let kr = All-append_right P (all_groups c) (all_groups_in cs) k in
      if_both (λ f. All P (all_groups_in f)) (is_group src c)
        (All-append P (all_groups (wrap new.id orientation first new c)) _ (All-wrap c kl) kr)
        (All-append P (all_groups c) _ kl (All-wrap_child cs kr))

  mutual
    unfolding transform place_beside all_groups

    All-transform_lem :
        (n : LayoutNode)
        → All P (all_groups n)
        → All P (all_groups (transform src orientation first new n))
    All-transform_lem (group g) k = k
    All-transform_lem (split s cs) k =
        if_both (λ n. All P (all_groups n)) (has_child src cs)
          (if_both (λ n. All P (all_groups n)) (same_orientation s.orientation orientation)
            (All-insert_beside cs k) (All-wrap_child cs k))
          (All-transform_each cs k)

    All-transform_each :
        (cs : Forest)
        → All P (all_groups_in cs)
        → All P (all_groups_in (transform_each src orientation first new cs))
    All-transform_each nil k = tt
    All-transform_each (cons c cs) k =
        All-append P (all_groups (transform src orientation first new c)) _
          (All-transform_lem c (All-append_left P (all_groups c) (all_groups_in cs) k))
          (All-transform_each cs (All-append_right P (all_groups c) (all_groups_in cs) k))

  pub All-split_tree :
      (n : LayoutNode)
      → ((id : String) → P (create_group id [] none))
      → All P (all_groups n)
      → All P (all_groups (split_tree n src orientation first new))
  All-split_tree (group g) bare k = All-wrap (group g) k
  All-split_tree (split s cs) bare k = All-normalize P bare _ (All-transform_lem (split s cs) k)
