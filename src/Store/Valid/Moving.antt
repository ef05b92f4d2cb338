-- ===== src/Store/Valid/Moving.antt =====
-- The actions on panes keep the store valid, and never throw on a valid store.
use sqlwarden.Layout.Splitting.{All-split_tree}
use sqlwarden.Store.Valid.Opening.{place_tab_at_edge-Fits, new_pane-IsListedGroup}
use sqlwarden.Layout.Flat.{All-normalize, All-map_groups, first_group-IsNormal}
use sqlwarden.Layout.Operations.{
  moved-IsSound, set_active_in_group-IsSound, split_to_edge-eq-some, split_group-eq-some,
  split_group-IsSound, find_of_tab-full, new_pane,
}
use sqlwarden.Common.{
  ℕ, ◌≡◌, refl, true, List, [], ◌∷◌, Option, none, some, String, string_eq, nat_eq, lookup, insert,
  includes, arith, All, inl, inr, subst, Option-cases, ◌⊎◌, ◌∙◌, ap₂, if_both, is_some, ◌++◌,
  find-true, All-find,
}
use sqlwarden.Layout.Tree.{
  LayoutNode, group, split, Forest, nil, cons, all_groups, all_groups_in, create_group,
  is_empty_group, find_group,
}
use sqlwarden.Layout.Tabs.{set_active_in_group, move_tab_between_groups, moved, Position}
use sqlwarden.Layout.Splits.{
  split_group, split_to_edge, Side, SplitDirection, direction_orientation, direction_before,
}
use sqlwarden.Layout.Sound.{IsSound}
use sqlwarden.Layout.Normal.{IsNormal, AreFull}
use sqlwarden.Store.State.{IdeState, EditorTab}
use sqlwarden.Store.Tabs.{tab_named}
use sqlwarden.Store.Panes.{
  set_active_tab, move_tab, focus_after_move, split_active_tab, split_tab_to_edge, show_split,
  resize, resize_each, set_split_sizes,
}
use sqlwarden.Store.Valid.{IsValid, Fits, AllFit-insert}
use sqlwarden.Store.Valid.Groups.{
  is_listed, IsListedGroup, land_tab-IsListedGroup, lift_tab-IsListedGroup,
  activate_in-IsListedGroup,
}

-- A tab that is open is listed in its workspace.
listed_of_named :
    (tabs : List EditorTab) (t : String) (x : EditorTab)
    → tab_named tabs t ≡ some x
    → is_listed tabs x.workspace_id t ≡ true
listed_of_named [] t x e = cc
listed_of_named (y ∷ ys) t x e =
    ground (arith, listed_of_named ys t x, nat_eq.test_iff y.workspace_id x.workspace_id)

set_active_in_group-Fits :
    (tabs : List EditorTab) (ws : ℕ) (n : LayoutNode) (group_id t : String)
    → Fits tabs ws n
    → Fits tabs ws (set_active_in_group n group_id t)
unfolding set_active_in_group
set_active_in_group-Fits tabs ws n group_id t f = record {
  sound = set_active_in_group-IsSound n group_id t f.sound;
  listed =
      All-map_groups (IsListedGroup tabs ws) _ (activate_in-IsListedGroup tabs ws group_id t) n
        f.listed;
}

pub set_active_tab-IsValid :
    (s : IdeState) (group_id t : String) → IsValid s → IsValid (set_active_tab s group_id t)
unfolding set_active_tab
set_active_tab-IsValid s group_id t v = elim (Option-cases (tab_named s.tabs t)) [
  | inl e ↦ rw (e, set_active_tab) v
  | inr (x, e) ↦ elim (Option-cases (lookup x.workspace_id s.layout)) [
    | inl l ↦ rw (e, set_active_tab, l) v
    | inr (n, l) ↦
        let ws = x.workspace_id in
        let f = set_active_in_group-Fits s.tabs ws n group_id t (v.layouts ws n l) in
        rw (e, set_active_tab, l)
          (if_both IsValid (is_some (find_group n group_id))
            (record {
              layouts = AllFit-insert s.tabs s.layout ws _ v.layouts f;
              distinct = v.distinct;
            })
            v)
  ]
]

moved-Fits :
    (tabs : List EditorTab) (ws : ℕ) (n : LayoutNode) (from_id t to_id target : String)
    (position : Position)
    → is_listed tabs ws t ≡ true
    → Fits tabs ws n
    → Fits tabs ws (moved n from_id t to_id target position)
unfolding moved create_group
moved-Fits tabs ws n from_id t to_id target position l f = record {
  sound = moved-IsSound n from_id t to_id target position f.sound;
  listed =
      All-normalize (IsListedGroup tabs ws) (λ id u i. cc) _
        (All-map_groups (IsListedGroup tabs ws) _
          (λ g. land_tab-IsListedGroup tabs ws to_id t target position g l) _
          (All-map_groups (IsListedGroup tabs ws) _ (lift_tab-IsListedGroup tabs ws from_id t) n
            f.listed));
}

move-cases :
    (n : LayoutNode) (from_id t to_id target : String) (position : Position)
    → (move_tab_between_groups n from_id t to_id target position ≡ none)
      ⊎ (move_tab_between_groups n from_id t to_id target position
          ≡ some (moved n from_id t to_id target position))
unfolding move_tab_between_groups
move-cases n from_id t to_id target position = ground arith

focus_after_move-some :
    (n : LayoutNode) (to_id : String)
    → IsSound n
    → (id : String) × (focus_after_move n to_id ≡ some id)
unfolding focus_after_move
focus_after_move-some n to_id v = elim (Option-cases (find_group n to_id)) [
  | inl e ↦ let (g, f) = first_group-IsNormal n v.normal in (g.id, rw (e, focus_after_move, f))
  | inr (g, e) ↦ (to_id, rw (e, focus_after_move))
]

pub move_tab-IsValid :
    (s : IdeState) (from_id t to_id target : String) (position : Position)
    → IsValid s
    → (r : IdeState) × (move_tab s from_id t to_id target position ≡ some r) × IsValid r
unfolding move_tab
move_tab-IsValid s from_id t to_id target position v = elim (Option-cases (tab_named s.tabs t)) [
  | inl e ↦ (s, rw (e, move_tab), v)
  | inr (x, e) ↦ elim (Option-cases (lookup x.workspace_id s.layout)) [
    | inl l ↦ (s, rw (e, move_tab, l), v)
    | inr (n, l) ↦ elim (move-cases n from_id t to_id target position) [
      | inl m ↦ (s, rw (e, move_tab, l, m), v)
      | inr m ↦
          let ws = x.workspace_id in
          let next = moved n from_id t to_id target position in
          let f =
            moved-Fits s.tabs ws n from_id t to_id target position (listed_of_named s.tabs t x e)
              (v.layouts ws n l) in
          let (focus, g) = focus_after_move-some next to_id f.sound in
          (
            record s {
              layout = insert ws next s.layout;
              active_group_id = insert ws focus s.active_group_id;
            },
            rw (e, move_tab, l, m, g),
            record {
              layouts = AllFit-insert s.tabs s.layout ws next v.layouts f;
              distinct = v.distinct;
            },
          )
    ]
  ]
]

split_group-Fits :
    (tabs : List EditorTab) (ws : ℕ) (n : LayoutNode) (src t : String) (direction : SplitDirection)
    (new_id : String) (m : LayoutNode)
    → split_group n src t direction new_id ≡ some m
    → Fits tabs ws n
    → Fits tabs ws m
split_group-Fits tabs ws n src t direction new_id m e f =
    let (g, found, shown, same) = split_group-eq-some n src t direction new_id m e in
    let l = All-find (IsListedGroup tabs ws) _ (all_groups n) g found f.listed t shown in
    record {
      sound = split_group-IsSound n src t direction new_id m e f.sound;
      listed =
          subst (λ k. All (IsListedGroup tabs ws) (all_groups k)) same
            (All-split_tree (IsListedGroup tabs ws) src (direction_orientation direction)
              (direction_before direction) (new_pane new_id t)
              (new_pane-IsListedGroup tabs ws new_id t l) n (unfold create_group in (λ id u i. cc))
              f.listed);
    }

split_to_edge-Fits :
    (tabs : List EditorTab) (ws : ℕ) (n : LayoutNode) (t : String) (side : Side) (new_id : String)
    (m : LayoutNode)
    → split_to_edge n t side new_id ≡ some m
    → Fits tabs ws n
    → Fits tabs ws m
split_to_edge-Fits tabs ws n t side new_id m e f =
    let (g, found, same) = split_to_edge-eq-some n t side new_id m e in
    let shown = find-true (λ g. includes g.tab_ids t) (all_groups n) g found in
    let l = All-find (IsListedGroup tabs ws) _ (all_groups n) g found f.listed t shown in
    subst (Fits tabs ws) same
      (place_tab_at_edge-Fits tabs ws n t side new_id l (find_of_tab-full n t g found) f)

show_split-IsValid :
    (s : IdeState) (ws : ℕ) (t new_id : String) (o : Option LayoutNode)
    → ((m : LayoutNode) → o ≡ some m → Fits s.tabs ws m)
    → IsValid s
    → IsValid (show_split s ws t new_id o)
unfolding show_split
show_split-IsValid s ws t new_id none h v = v
show_split-IsValid s ws t new_id (some m) h v = record {
  layouts = AllFit-insert s.tabs s.layout ws m v.layouts (h m refl);
  distinct = v.distinct;
}

pub split_active_tab-IsValid :
    (s : IdeState) (ws : ℕ) (group_id t : String) (direction : SplitDirection) (new_id : String)
    → IsValid s
    → IsValid (split_active_tab s ws group_id t direction new_id)
unfolding split_active_tab
split_active_tab-IsValid s ws group_id t direction new_id v =
    elim (Option-cases (lookup ws s.layout)) [
      | inl l ↦ rw (l, split_active_tab) v
      | inr (n, l) ↦
          rw (l, split_active_tab)
            (show_split-IsValid s ws t new_id _
              (λ m e.
                split_group-Fits s.tabs ws n group_id t direction new_id m e (v.layouts ws n l))
              v)
    ]

pub split_tab_to_edge-IsValid :
    (s : IdeState) (ws : ℕ) (t : String) (side : Side) (new_id : String)
    → IsValid s
    → IsValid (split_tab_to_edge s ws t side new_id)
unfolding split_tab_to_edge
split_tab_to_edge-IsValid s ws t side new_id v = elim (Option-cases (lookup ws s.layout)) [
  | inl l ↦ rw (l, split_tab_to_edge) v
  | inr (n, l) ↦
      rw (l, split_tab_to_edge)
        (show_split-IsValid s ws t new_id _
          (λ m e. split_to_edge-Fits s.tabs ws n t side new_id m e (v.layouts ws n l)) v)
]

module _ (split_id : String) (sizes : List ℕ) where
  mutual
    unfolding resize all_groups

    all_groups-resize : (n : LayoutNode) → all_groups (resize split_id sizes n) ≡ all_groups n
    all_groups-resize (group g) = refl
    all_groups-resize (split h cs) = all_groups-resize_each cs

    all_groups-resize_each :
        (cs : Forest) → all_groups_in (resize_each split_id sizes cs) ≡ all_groups_in cs
    all_groups-resize_each nil = refl
    all_groups-resize_each (cons c cs) = ap₂ ◌++◌ (all_groups-resize c) (all_groups-resize_each cs)

  is_empty-resize : (n : LayoutNode) → is_empty_group (resize split_id sizes n) ≡ is_empty_group n
  unfolding resize is_empty_group
  is_empty-resize (group g) = refl
  is_empty-resize (split h cs) = refl

  mutual
    unfolding resize

    resize-IsNormal : (n : LayoutNode) → IsNormal n → IsNormal (resize split_id sizes n)
    resize-IsNormal (group g) h = tt
    resize-IsNormal (split s nil) h = elim h [ ]
    resize-IsNormal (split s (cons c nil)) h = elim h [ ]
    resize-IsNormal (split s (cons c (cons d ds))) h = resize-AreFull (cons c (cons d ds)) h

    resize-AreFull : (cs : Forest) → AreFull cs → AreFull (resize_each split_id sizes cs)
    resize-AreFull nil h = tt
    resize-AreFull (cons c cs) (e, p, h) =
        (is_empty-resize c ∙ e, resize-IsNormal c p, resize-AreFull cs h)

  resize-Fits :
      (tabs : List EditorTab) (ws : ℕ) (n : LayoutNode)
      → Fits tabs ws n
      → Fits tabs ws (resize split_id sizes n)
  resize-Fits tabs ws n f = record {
    sound = record {
      normal = resize-IsNormal n f.sound.normal;
      groups = rw (all_groups-resize n) f.sound.groups;
    };
    listed = rw (all_groups-resize n) f.listed;
  }

  pub set_split_sizes-IsValid :
      (s : IdeState) (ws : ℕ) → IsValid s → IsValid (set_split_sizes s ws split_id sizes)
  unfolding set_split_sizes
  set_split_sizes-IsValid s ws v = elim (Option-cases (lookup ws s.layout)) [
    | inl l ↦ rw (l, set_split_sizes) v
    | inr (n, l) ↦
        rw (l, set_split_sizes)
          (record {
            layouts =
                AllFit-insert s.tabs s.layout ws _ v.layouts
                  (resize-Fits s.tabs ws n (v.layouts ws n l));
            distinct = v.distinct;
          })
  ]
