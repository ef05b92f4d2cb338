-- ===== src/Tests/Layouts.antt =====
-- Two panes side by side, of which the first shows two tabs.
use sqlwarden.Layout.Operations.{moved-IsSound}
use sqlwarden.Layout.Shown.{shows-moved}
use sqlwarden.Layout.Refinement.{split_group-put_beside}
use sqlwarden.Layout.Tabs.{moved, Position}
use sqlwarden.Layout.Splits.{split_group, SplitDirection}
use sqlwarden.Layout.Flat.{shows}
use sqlwarden.Layout.Normal.{IsNormal, has_tabs, filter-normalize, normalize-IsNormal}
use sqlwarden.Layout.Sound.{IsSound}
use sqlwarden.Common.{[], ◌∷◌, none, some, filter, ◌≡◌, refl, true, arith}
use sqlwarden.Layout.Tree.{
  GroupNode, LayoutNode, group, split, nil, cons, row, column, all_groups, create_group, normalize,
  find_group, is_empty_group,
}

abbrev pub left_pane : GroupNode
left_pane = record { id = "g1"; tab_ids = "a" ∷ "b" ∷ []; active_tab_id = some "a" }

abbrev pub right_pane : GroupNode
right_pane = record { id = "g2"; tab_ids = "c" ∷ []; active_tab_id = some "c" }

abbrev pub two_panes : LayoutNode
two_panes =
    split (record { id = "s"; orientation = row; sizes = none })
      (cons (group left_pane) (cons (group right_pane) nil))

abbrev hollow : LayoutNode
hollow =
    split (record { id = "u"; orientation = column; sizes = none })
      (cons two_panes (cons (group (create_group "g3" [] none)) nil))

two_panes-IsNormal : IsNormal two_panes
unfolding is_empty_group
two_panes-IsNormal = (refl, tt, (refl, tt, tt))

two_panes-IsSound : IsSound two_panes
unfolding all_groups
two_panes-IsSound = record {
  normal = two_panes-IsNormal;
  groups = (
    record { distinct = (refl, (refl, tt)); selected = refl },
    (record { distinct = (refl, tt); selected = refl }, tt),
  );
}

split_group-put_beside_example :
    (m : LayoutNode) × (split_group two_panes "g1" "b" SplitDirection.right "g9" ≡ some m)
    × (all_groups m ≡ left_pane ∷ create_group "g9" ("b" ∷ []) (some "b") ∷ right_pane ∷ [])
unfolding all_groups find_group
split_group-put_beside_example =
    split_group-put_beside two_panes "g1" "b" SplitDirection.right "g9" left_pane two_panes-IsNormal
      (omega arith) refl refl

normalize-IsNormal_example :
    IsNormal (normalize hollow) × (normalize (normalize hollow) ≡ normalize hollow)
normalize-IsNormal_example = normalize-IsNormal hollow

filter-normalize_example :
    filter has_tabs (all_groups (normalize hollow)) ≡ left_pane ∷ right_pane ∷ []
unfolding all_groups create_group
filter-normalize_example = filter-normalize hollow

shows-moved_example : shows (moved two_panes "g2" "c" "g1" "b" Position.before) "c" ≡ true
unfolding all_groups
shows-moved_example = shows-moved "g2" "c" "g1" "b" Position.before two_panes "c"

moved-IsSound_example : IsSound (moved two_panes "g2" "c" "g1" "b" Position.before)
moved-IsSound_example = moved-IsSound two_panes "g2" "c" "g1" "b" Position.before two_panes-IsSound
