-- ===== src/Store/Consoles/Keeping.antt =====
-- What the actions on tabs and panes make of the consoles.
use sqlwarden.Layout.Tree.{find_group, all_groups}
use sqlwarden.Layout.Tabs.{Position, remove_tab, move_tab_between_groups, remove_tab_from_group}
use sqlwarden.Layout.Splits.{SplitDirection, Side, split_to_edge, split_group}
use sqlwarden.Store.Consoles.Named.{
  IsConsole, HasConsoles, Keeps, All-filter, All-append_one, with_tab-All, console_tab-IsConsole,
}
use sqlwarden.Store.Consoles.Fresh.{open_console-open_tab}
use sqlwarden.Store.Consoles.{console_tab, open_console, next_number, LayoutNode, is_open}
use sqlwarden.Store.State.{IdeState, EditorTab, ensure_workspace_layout}
use sqlwarden.Store.Tabs.{
  open_tab, open_tab_to_side, ensure_tab, close_tab, close_tab_instance, with_layout, release_tab,
  show_in_place, show_to_side, is_blank, add_quietly, refocus, tab_named,
}
use sqlwarden.Store.Panes.{
  set_active_tab, move_tab, split_active_tab, split_tab_to_edge, set_split_sizes, show_split,
  focus_after_move,
}
use sqlwarden.Common.{
  if◌then◌else◌, ℕ, Option-cases, List, String, inl, Option, not, Bool-cases, lookup, ◌≡◌, some,
  subst, ◌==◌, inr, nat_eq, if_both, is_some, none, sym, string_eq, refl, any, includes,
}

pub open_tab-Keeps :
    (s : IdeState) (tab : EditorTab) (id : String)
    → HasConsoles s.tabs
    → IsConsole tab
    → Keeps (open_tab s tab id)
unfolding open_tab show_in_place
open_tab-Keeps s tab id h p = elim (Option-cases (ensure_workspace_layout s tab.workspace_id id)) [
  | inl e ↦ rw (open_tab, e) tt
  | inr (_, e) ↦ rw (open_tab, e) (with_tab-All IsConsole s.tabs tab h p)
]

pub open_tab_to_side-Keeps :
    (s : IdeState) (tab : EditorTab) (id : String)
    → HasConsoles s.tabs
    → IsConsole tab
    → Keeps (open_tab_to_side s tab id)
unfolding open_tab_to_side show_in_place show_to_side
open_tab_to_side-Keeps s tab id h p =
    elim (Option-cases (ensure_workspace_layout s tab.workspace_id id)) [
      | inl e ↦ rw (open_tab_to_side, e) tt
      | inr (q, e) ↦
          let kept = with_tab-All IsConsole s.tabs tab h p in
          rw (open_tab_to_side, e)
            (if_both (λ r. HasConsoles r.tabs) (is_blank q.0) {x = show_in_place s tab q.0 q.1} kept
              kept)
    ]

pub ensure_tab-Keeps :
    (s : IdeState) (tab : EditorTab) (id : String)
    → HasConsoles s.tabs
    → IsConsole tab
    → Keeps (ensure_tab s tab id)
unfolding ensure_tab add_quietly
ensure_tab-Keeps s tab id h p = elim (Bool-cases (is_open s.tabs tab.id)) [
  | inl t ↦ rw (ensure_tab, t) h
  | inr f ↦ elim (Option-cases (ensure_workspace_layout s tab.workspace_id id)) [
    | inl e ↦ rw (ensure_tab, f, e) tt
    | inr (_, e) ↦ rw (ensure_tab, f, e) (All-append_one IsConsole s.tabs tab h p)
  ]
]

pub open_console-Keeps :
    (s : IdeState) (ws : ℕ) (y : List ℕ) (c : Option ℕ) (d : Option String) (id : String)
    → HasConsoles s.tabs
    → Keeps (open_console s ws y c d id)
open_console-Keeps s ws y c d id h =
    let n = next_number s ws in
    subst Keeps (sym (open_console-open_tab s ws y c d id))
      (open_tab-Keeps s (console_tab ws n y c d) id h (console_tab-IsConsole ws n y c d))

pub with_layout-Keeps :
    (s : IdeState) (ws : ℕ) (n : LayoutNode) → HasConsoles s.tabs → Keeps (with_layout s ws n)
unfolding with_layout
with_layout-Keeps s ws n h = elim (Option-cases (refocus n (lookup ws s.active_group_id))) [
  | inl e ↦ rw (with_layout, e) tt
  | inr (_, e) ↦ rw (with_layout, e) h
]

release_tab-HasConsoles :
    (s : IdeState) (t : String) → HasConsoles s.tabs → HasConsoles (release_tab s t).tabs
unfolding release_tab
release_tab-HasConsoles s t h = All-filter IsConsole (λ x. not (x.id == t)) s.tabs h

pub close_tab-Keeps : (s : IdeState) (t : String) → HasConsoles s.tabs → Keeps (close_tab s t)
unfolding close_tab
close_tab-Keeps s t h =
    let freed = release_tab-HasConsoles s t h in
    elim (Option-cases (tab_named s.tabs t)) [
      | inl e ↦ rw (close_tab, e) freed
      | inr (x, e) ↦ elim (Option-cases (lookup x.workspace_id s.layout)) [
        | inl l ↦ rw (close_tab, e, l) freed
        | inr (n, l) ↦
            rw (close_tab, e, l)
              (with_layout-Keeps (release_tab s t) x.workspace_id (remove_tab n t) freed)
      ]
    ]

pub close_tab_instance-Keeps :
    (s : IdeState) (g t : String) → HasConsoles s.tabs → Keeps (close_tab_instance s g t)
unfolding close_tab_instance
close_tab_instance-Keeps s g t h = elim (Option-cases (tab_named s.tabs t)) [
  | inl e ↦ rw (close_tab_instance, e) h
  | inr (x, e) ↦ elim (Option-cases (lookup x.workspace_id s.layout)) [
    | inl l ↦ rw (close_tab_instance, e, l) h
    | inr (n, l) ↦
        let next = remove_tab_from_group n g t in
        let still = any (λ k. includes k.tab_ids t) (all_groups next) in
        rw (close_tab_instance, e, l)
          (with_layout-Keeps (if still then s else release_tab s t) x.workspace_id next (
            if_both {A = IdeState} (λ q. HasConsoles q.tabs) still h
              (release_tab-HasConsoles s t h)))
  ]
]

pub set_active_tab-tabs : (s : IdeState) (g t : String) → (set_active_tab s g t).tabs ≡ s.tabs
unfolding set_active_tab
set_active_tab-tabs s g t = elim (Option-cases (tab_named s.tabs t)) [
  | inl e ↦ rw (set_active_tab, e) refl
  | inr (x, e) ↦ elim (Option-cases (lookup x.workspace_id s.layout)) [
    | inl l ↦ rw (set_active_tab, e, l) refl
    | inr (n, l) ↦ elim (Bool-cases (is_some (find_group n g))) [
      | inl k ↦ rw (set_active_tab, e, l, k) refl
      | inr k ↦ rw (set_active_tab, e, l, k) refl
    ]
  ]
]

pub move_tab-Keeps :
    (s : IdeState) (f t g u : String) (p : Position)
    → HasConsoles s.tabs
    → Keeps (move_tab s f t g u p)
unfolding move_tab
move_tab-Keeps s f t g u p h = elim (Option-cases (tab_named s.tabs t)) [
  | inl e ↦ rw (move_tab, e) h
  | inr (x, e) ↦ elim (Option-cases (lookup x.workspace_id s.layout)) [
    | inl l ↦ rw (move_tab, e, l) h
    | inr (n, l) ↦ elim (Option-cases (move_tab_between_groups n f t g u p)) [
      | inl m ↦ rw (move_tab, e, l, m) h
      | inr (next, m) ↦ elim (Option-cases (focus_after_move next g)) [
        | inl k ↦ rw (move_tab, e, l, m, k) tt
        | inr (_, k) ↦ rw (move_tab, e, l, m, k) h
      ]
    ]
  ]
]

pub show_split-tabs :
    (s : IdeState) (ws : ℕ) (t id : String) (o : Option LayoutNode)
    → (show_split s ws t id o).tabs ≡ s.tabs
unfolding show_split
show_split-tabs s ws t id none = refl
show_split-tabs s ws t id (some n) = refl

pub split_active_tab-tabs :
    (s : IdeState) (ws : ℕ) (g t : String) (d : SplitDirection) (id : String)
    → (split_active_tab s ws g t d id).tabs ≡ s.tabs
unfolding split_active_tab
split_active_tab-tabs s ws g t d id = elim (Option-cases (lookup ws s.layout)) [
  | inl e ↦ rw (split_active_tab, e) refl
  | inr (n, e) ↦ rw (split_active_tab, e) (show_split-tabs s ws t id (split_group n g t d id))
]

pub split_tab_to_edge-tabs :
    (s : IdeState) (ws : ℕ) (t : String) (side : Side) (id : String)
    → (split_tab_to_edge s ws t side id).tabs ≡ s.tabs
unfolding split_tab_to_edge
split_tab_to_edge-tabs s ws t side id = elim (Option-cases (lookup ws s.layout)) [
  | inl e ↦ rw (split_tab_to_edge, e) refl
  | inr (n, e) ↦ rw (split_tab_to_edge, e) (show_split-tabs s ws t id (split_to_edge n t side id))
]

pub set_split_sizes-tabs :
    (s : IdeState) (ws : ℕ) (id : String) (sizes : List ℕ)
    → (set_split_sizes s ws id sizes).tabs ≡ s.tabs
unfolding set_split_sizes
set_split_sizes-tabs s ws id sizes = elim (Option-cases (lookup ws s.layout)) [
  | inl e ↦ rw (set_split_sizes, e) refl
  | inr (n, e) ↦ rw (set_split_sizes, e) refl
]
