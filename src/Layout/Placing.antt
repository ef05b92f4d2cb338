-- ===== src/Layout/Placing.antt =====
-- Placing a pane at an edge of the layout: what `placeTabAtEdge` makes of the tree.
use sqlwarden.Common.{
  ◌≡◌, refl, sym, ap, ◌∙◌, true, false, List, [], ◌∷◌, ◌++◌, arith, All, string_eq, All-append,
  if_both, append_assoc, append-nil,
}
use sqlwarden.Layout.Tree.{
  GroupNode, SplitHead, LayoutNode, group, split, Forest, nil, cons, all_groups, all_groups_in,
  is_empty_group, row,
}
use sqlwarden.Layout.Splits.{
  place_at, Side, append_child, same_orientation, beside, at_edge, fresh_head,
}
use sqlwarden.Layout.Normal.{IsNormal, AreFull, has_tabs}

module _ (new : GroupNode) (full : has_tabs new ≡ true) where
  append_child-AreFull : (cs : Forest) → AreFull cs → AreFull (append_child cs (group new))
  unfolding append_child is_empty_group
  append_child-AreFull nil h = (ground arith, tt, tt)
  append_child-AreFull (cons c cs) (e, p, h) = (e, p, append_child-AreFull cs h)

  beside-IsNormal :
      (side : Side) (s : SplitHead) (n : LayoutNode)
      → is_empty_group n ≡ false
      → IsNormal n
      → IsNormal (split s (beside side new n))
  unfolding is_empty_group
  beside-IsNormal Side.left s n e h = (ground arith, tt, (e, h, tt))
  beside-IsNormal Side.right s n e h = (e, h, (ground arith, tt, tt))

  at_edge-IsNormal :
      (side : Side) (s : SplitHead) (cs : Forest)
      → IsNormal (split s cs)
      → IsNormal (split s (at_edge side new cs))
  unfolding append_child is_empty_group
  at_edge-IsNormal side s nil h = elim h [ ]
  at_edge-IsNormal side s (cons c nil) h = elim h [ ]
  at_edge-IsNormal Side.left s (cons c (cons d ds)) h = (ground arith, tt, h)
  at_edge-IsNormal Side.right s (cons c (cons d ds)) h = append_child-AreFull (cons c (cons d ds)) h

  pub place_at-IsNormal :
      (n : LayoutNode) (side : Side)
      → is_empty_group n ≡ false
      → IsNormal n
      → IsNormal (place_at n new side)
  unfolding place_at
  place_at-IsNormal (group g) side e h = beside-IsNormal side (fresh_head new.id row) (group g) e h
  place_at-IsNormal (split s cs) side e h =
      if_both IsNormal (same_orientation s.orientation row) (at_edge-IsNormal side s cs h)
        (beside-IsNormal side (fresh_head new.id row) (split s cs) e h)

all_groups-append_child :
    (cs : Forest) (new : GroupNode)
    → all_groups_in (append_child cs (group new)) ≡ all_groups_in cs ++ new ∷ []
unfolding append_child all_groups
all_groups-append_child nil new = refl
all_groups-append_child (cons c cs) new =
    ap (◌++◌ (all_groups c)) (all_groups-append_child cs new)
    ∙ sym (append_assoc (all_groups c) (all_groups_in cs) (new ∷ []))

abbrev pub at_end : Side → GroupNode → List GroupNode → List GroupNode
at_end Side.left new gs = new ∷ gs
at_end Side.right new gs = gs ++ new ∷ []

all_groups-beside :
    (side : Side) (new : GroupNode) (n : LayoutNode)
    → all_groups_in (beside side new n) ≡ at_end side new (all_groups n)
unfolding all_groups
all_groups-beside Side.left new n = ap (λ xs. new ∷ xs) (append-nil (all_groups n))
all_groups-beside Side.right new n = refl

all_groups-at_edge :
    (side : Side) (new : GroupNode) (cs : Forest)
    → all_groups_in (at_edge side new cs) ≡ at_end side new (all_groups_in cs)
unfolding all_groups
all_groups-at_edge Side.left new cs = refl
all_groups-at_edge Side.right new cs = all_groups-append_child cs new

-- Placing a pane at an edge puts it first or last, whatever the root, and leaves the others alone.
pub all_groups-place_at :
    (n : LayoutNode) (new : GroupNode) (side : Side)
    → all_groups (place_at n new side) ≡ at_end side new (all_groups n)
unfolding place_at all_groups
all_groups-place_at (group g) new side = all_groups-beside side new (group g)
all_groups-place_at (split s cs) new side =
    if_both (λ n. all_groups n ≡ at_end side new (all_groups_in cs))
      (same_orientation s.orientation row) (all_groups-at_edge side new cs)
      (all_groups-beside side new (split s cs))

pub at_end-All {ℓ} :
    (P : GroupNode → Type ℓ) (side : Side) (new : GroupNode) (gs : List GroupNode)
    → P new
    → All P gs
    → All P (at_end side new gs)
at_end-All P Side.left new gs p h = (p, h)
at_end-All P Side.right new gs p h = All-append P gs (new ∷ []) h (p, tt)
