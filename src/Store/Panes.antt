-- ===== src/Store/Panes.antt =====
-- frontend/src/components/ide/useIdeStore.ts: the actions on the panes of a workspace's layout.
-- `none` is the TypeError of an action that reads `.id` of a missing first pane.
use sqlwarden.Common.{
  ℕ, List, Option, none, some, String, if◌then◌else◌, ◌==◌, string_eq, nat_eq, lookup, insert,
  is_some,
}
use sqlwarden.Layout.Tree.{
  LayoutNode, group, split, Forest, nil, cons, SplitHead, find_group, first_group,
}
use sqlwarden.Layout.Tabs.{set_active_in_group, move_tab_between_groups, Position}
use sqlwarden.Layout.Splits.{split_group, split_to_edge, Side, SplitDirection}
use sqlwarden.Store.State.{IdeState, Drag, Jump}
use sqlwarden.Store.Tabs.{tab_named, focus_key}

unfoldable pub set_active_tab : IdeState → String → String → IdeState
set_active_tab s group_id tab_id = elim (tab_named s.tabs tab_id) [
  | none ↦ s
  | some tab ↦ elim (lookup tab.workspace_id s.layout) [
    | none ↦ s
    | some n ↦
        if is_some (find_group n group_id)
        then record s {
          layout = insert tab.workspace_id (set_active_in_group n group_id tab_id) s.layout;
          active_group_id = insert tab.workspace_id group_id s.active_group_id;
        }
        else s
  ]
]

-- The pane that has the focus after a move: the target, if it survived.
unfoldable pub focus_after_move : LayoutNode → String → Option String
focus_after_move n to_id = elim (find_group n to_id) [
  | some g ↦ some to_id
  | none ↦ elim (first_group n) [ none ↦ none | some g ↦ some g.id ]
]

unfoldable pub move_tab : IdeState → String → String → String → String → Position → Option IdeState
move_tab s from_id tab_id to_id target position = elim (tab_named s.tabs tab_id) [
  | none ↦ some s
  | some tab ↦ elim (lookup tab.workspace_id s.layout) [
    | none ↦ some s
    | some n ↦ elim (move_tab_between_groups n from_id tab_id to_id target position) [
      | none ↦ some s
      | some next ↦ elim (focus_after_move next to_id) [
        | none ↦ none
        | some focus ↦ some (record s {
          layout = insert tab.workspace_id next s.layout;
          active_group_id = insert tab.workspace_id focus s.active_group_id;
        })
      ]
    ]
  ]
]

unfoldable pub focus_group : IdeState → ℕ → String → IdeState
focus_group s ws group_id = record s { active_group_id = insert ws group_id s.active_group_id }

-- The new pane of a split takes the focus; the layout stays if there was nothing to split.
unfoldable pub show_split : IdeState → ℕ → String → String → Option LayoutNode → IdeState
show_split s ws tab_id new_id none = s
show_split s ws tab_id new_id (some next) = record s {
  layout = insert ws next s.layout;
  active_group_id = insert ws new_id s.active_group_id;
  focus_editor_request = some (focus_key new_id tab_id);
}

unfoldable pub split_active_tab :
    IdeState → ℕ → String → String → SplitDirection → String → IdeState
split_active_tab s ws group_id tab_id direction new_id = elim (lookup ws s.layout) [
  | none ↦ s
  | some n ↦ show_split s ws tab_id new_id (split_group n group_id tab_id direction new_id)
]

unfoldable pub split_tab_to_edge : IdeState → ℕ → String → Side → String → IdeState
split_tab_to_edge s ws tab_id side new_id = elim (lookup ws s.layout) [
  | none ↦ s
  | some n ↦ show_split s ws tab_id new_id (split_to_edge n tab_id side new_id)
]

abbrev pub resized : SplitHead → String → List ℕ → SplitHead
resized h split_id sizes = record h { sizes = if h.id == split_id then some sizes else h.sizes }

unfoldable mutual
  pub resize : String → List ℕ → LayoutNode → LayoutNode
  resize split_id sizes (group g) = group g
  resize split_id sizes (split h cs) =
      split (resized h split_id sizes) (resize_each split_id sizes cs)

  pub resize_each : String → List ℕ → Forest → Forest
  resize_each split_id sizes nil = nil
  resize_each split_id sizes (cons c cs) =
      cons (resize split_id sizes c) (resize_each split_id sizes cs)

unfoldable pub set_split_sizes : IdeState → ℕ → String → List ℕ → IdeState
set_split_sizes s ws split_id sizes = elim (lookup ws s.layout) [
  | none ↦ s
  | some n ↦ record s { layout = insert ws (resize split_id sizes n) s.layout }
]

unfoldable pub set_dragging_tab : IdeState → Option Drag → IdeState
set_dragging_tab s drag = record s { dragging_tab = drag }

unfoldable pub set_focus_editor_request : IdeState → Option String → IdeState
set_focus_editor_request s key = record s { focus_editor_request = key }

unfoldable pub set_pending_jump : IdeState → Option Jump → IdeState
set_pending_jump s jump = record s { pending_jump = jump }

unfoldable pub clear_pending_jump : IdeState → IdeState
clear_pending_jump s = record s { pending_jump = none }
