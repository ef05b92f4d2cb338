-- ===== src/Store/Valid/Closing.antt =====
-- The actions that close tabs keep the store valid, and never throw on a valid store.
use sqlwarden.Layout.Operations.{remove_tab-IsSound, remove_tab_from_group-IsSound}
use sqlwarden.Layout.Tabs.{remove_tab, remove_tab_from_group, remove_tab_in, remove_tab_from}
use sqlwarden.Layout.Flat.{
  shows, first_group-IsNormal, All-normalize, All-map_groups, all_groups-map_groups,
}
use sqlwarden.Common.{
  ℕ, ◌≡◌, refl, true, false, not, List, [], ◌∷◌, Option, none, some, String, ◌==◌, string_eq,
  nat_eq, lookup, insert, any, map, includes, arith, All, IsDistinct, inl, inr, subst, Bool-cases,
  without, eq_iff, IsDistinct-filter, Option-cases, All-map, ne_of_lookup,
}
use sqlwarden.Layout.Tree.{GroupNode, LayoutNode, all_groups, create_group}
use sqlwarden.Layout.Sound.{IsSound}
use sqlwarden.Store.State.{IdeState, EditorTab, focused_group}
use sqlwarden.Store.Tabs.{
  with_layout, refocus, tab_named, close_tab, release_tab, close_tab_instance,
}
use sqlwarden.Store.Valid.{IsValid, Fits, AllFit-insert_others}
use sqlwarden.Store.Valid.Groups.{
  is_listed, IsListedGroup, close_in, close_in-IsListedGroup, remove_tab_from-IsListedGroup,
  remove_tab_in-IsListedGroup,
}

is_listed_of_new :
    (tabs : List EditorTab) (ws : ℕ) (t : String)
    → includes (map (λ x. x.id) tabs) t ≡ false
    → is_listed tabs ws t ≡ false
is_listed_of_new [] ws t h = refl
is_listed_of_new (x ∷ xs) ws t h = ground (arith, is_listed_of_new xs ws t)

-- A tab that some workspace lists is found, and in that workspace if ids are distinct.
tab_named_of_listed :
    (tabs : List EditorTab) (ws : ℕ) (t : String)
    → IsDistinct (map (λ x. x.id) tabs)
    → is_listed tabs ws t ≡ true
    → (x : EditorTab) × (tab_named tabs t ≡ some x) × (x.workspace_id ≡ ws)
tab_named_of_listed [] ws t d h = cc
tab_named_of_listed (x ∷ xs) ws t d h = elim (Bool-cases (x.id == t)) [
  | inl e ↦ (
    x,
    rw e,
    (nat_eq.test_iff x.workspace_id ws).0 (
        ground (
          arith,
          is_listed_of_new xs ws t,
          eq_iff x.id t,
          d.0,
          subst (λ u. includes (map (λ y. y.id) xs) u ≡ false) ((eq_iff x.id t).0 e) d.0,
        )),
  )
  | inr e ↦ let (y, f, w) = tab_named_of_listed xs ws t d.1 (ground arith) in (y, rw e f, w)
]

map-id-close_in :
    (tabs : List EditorTab) (t : String)
    → map (λ x. x.id) (close_in t tabs) ≡ without t (map (λ x. x.id) tabs)
map-id-close_in [] t = refl
map-id-close_in (x ∷ xs) t = ground (arith, map-id-close_in xs t)

close_in-IsDistinct :
    (tabs : List EditorTab) (t : String)
    → IsDistinct (map (λ x. x.id) tabs)
    → IsDistinct (map (λ x. x.id) (close_in t tabs))
close_in-IsDistinct tabs t d =
    rw (map-id-close_in tabs t) (IsDistinct-filter (λ u. not (u == t)) (map (λ x. x.id) tabs) d)

pub refocus-some :
    (n : LayoutNode) (focused : Option String)
    → IsSound n
    → (id : String) × (refocus n focused ≡ some id)
unfolding refocus focused_group
refocus-some n none v = let (g, e) = first_group-IsNormal n v.normal in (g.id, rw (e, refocus))
refocus-some n (some f) v = elim (Option-cases (focused_group n (some f))) [
  | inl e ↦ let (g, h) = first_group-IsNormal n v.normal in (g.id, rw (e, refocus, h))
  | inr (g, e) ↦ (f, rw (e, refocus))
]

-- A new layout of one workspace, over the tabs that are left.
with_layout-IsValid :
    (s : IdeState) (ws : ℕ) (n : LayoutNode)
    → Fits s.tabs ws n
    → ((ws' : ℕ) (n' : LayoutNode)
        → (ws == ws') ≡ false
        → lookup ws' s.layout ≡ some n'
        → Fits s.tabs ws' n')
    → IsDistinct (map (λ x. x.id) s.tabs)
    → (r : IdeState) × (with_layout s ws n ≡ some r) × IsValid r
unfolding with_layout
with_layout-IsValid s ws n f others d =
    let (id, e) = refocus-some n (lookup ws s.active_group_id) f.sound in
    (
      record s { layout = insert ws n s.layout; active_group_id = insert ws id s.active_group_id },
      rw (e, with_layout),
      record { layouts = AllFit-insert_others s.tabs s.layout ws n others f; distinct = d },
    )

-- A layout that does not show the tab fits the tabs without it.
close_in-Fits :
    (tabs : List EditorTab) (ws : ℕ) (t : String) (n : LayoutNode)
    → shows n t ≡ false
    → Fits tabs ws n
    → Fits (close_in t tabs) ws n
close_in-Fits tabs ws t n h f = record {
  sound = f.sound;
  listed = close_in-IsListedGroup tabs ws t (all_groups n) h f.listed;
}

pub shows-listed :
    (tabs : List EditorTab) (ws : ℕ) (t : String) (gs : List GroupNode)
    → All (IsListedGroup tabs ws) gs
    → any (λ g. includes g.tab_ids t) gs ≡ true
    → is_listed tabs ws t ≡ true
shows-listed tabs ws t [] k h = cc
shows-listed tabs ws t (g ∷ gs) (p, k) h = ground (arith, p t, shows-listed tabs ws t gs k)

-- Only the workspace of a tab shows it.
module _ (s : IdeState) (t : String) (v : IsValid s) where
  hidden-elsewhere :
      (ws : ℕ) (n : LayoutNode) (x : EditorTab)
      → tab_named s.tabs t ≡ some x
      → (x.workspace_id == ws) ≡ false
      → lookup ws s.layout ≡ some n
      → shows n t ≡ false
  hidden-elsewhere ws n x e other l = elim (Bool-cases (shows n t)) [
    | inr h ↦ h
    | inl h ↦
        let (y, f, w) =
          tab_named_of_listed s.tabs ws t v.distinct
            (shows-listed s.tabs ws t (all_groups n) (v.layouts ws n l).listed h) in
        ground (arith)
  ]

  hidden_of_closed :
      (ws : ℕ) (n : LayoutNode)
      → tab_named s.tabs t ≡ none
      → lookup ws s.layout ≡ some n
      → shows n t ≡ false
  hidden_of_closed ws n e l = elim (Bool-cases (shows n t)) [
    | inr h ↦ h
    | inl h ↦
        let (y, f, w) =
          tab_named_of_listed s.tabs ws t v.distinct
            (shows-listed s.tabs ws t (all_groups n) (v.layouts ws n l).listed h) in
        ground arith
  ]

  release_tab-AllFit :
      (ws : ℕ)
      → ((ws' : ℕ) (n' : LayoutNode)
          → (ws == ws') ≡ false
          → lookup ws' s.layout ≡ some n'
          → shows n' t ≡ false)
      → (ws' : ℕ) (n' : LayoutNode) → (ws == ws') ≡ false
      → lookup ws' s.layout ≡ some n'
      → Fits (close_in t s.tabs) ws' n'
  release_tab-AllFit ws h ws' n' o l =
      close_in-Fits s.tabs ws' t n' (h ws' n' o l) (v.layouts ws' n' l)

  release_tab-IsValid :
      ((ws : ℕ) (n : LayoutNode) → lookup ws s.layout ≡ some n → shows n t ≡ false)
      → IsValid (release_tab s t)
  unfolding release_tab
  release_tab-IsValid h = record {
    layouts = λ ws n l. close_in-Fits s.tabs ws t n (h ws n l) (v.layouts ws n l);
    distinct = close_in-IsDistinct s.tabs t v.distinct;
  }

remove_tab-Fits :
    (tabs : List EditorTab) (ws : ℕ) (t : String) (n : LayoutNode)
    → Fits tabs ws n
    → Fits (close_in t tabs) ws (remove_tab n t)
unfolding remove_tab create_group
remove_tab-Fits tabs ws t n f = record {
  sound = remove_tab-IsSound n t f.sound;
  listed =
      All-normalize (IsListedGroup (close_in t tabs) ws) (λ id u i. cc) _
        (rw (all_groups-map_groups (remove_tab_in t) n) (
          All-map (IsListedGroup tabs ws) (IsListedGroup (close_in t tabs) ws) (remove_tab_in t)
            (all_groups n) (remove_tab_in-IsListedGroup tabs ws t) f.listed));
}

remove_tab_from_group-Fits :
    (tabs : List EditorTab) (ws : ℕ) (group_id t : String) (n : LayoutNode)
    → Fits tabs ws n
    → Fits tabs ws (remove_tab_from_group n group_id t)
unfolding remove_tab_from_group create_group
remove_tab_from_group-Fits tabs ws group_id t n f = record {
  sound = remove_tab_from_group-IsSound n group_id t f.sound;
  listed =
      All-normalize (IsListedGroup tabs ws) (λ id u i. cc) _
        (All-map_groups (IsListedGroup tabs ws) (remove_tab_from group_id t)
          (remove_tab_from-IsListedGroup tabs ws t group_id) n f.listed);
}

-- Closing a tab succeeds on a valid store and keeps it so.
pub close_tab-IsValid :
    (s : IdeState) (t : String) → IsValid s → (r : IdeState) × (close_tab s t ≡ some r) × IsValid r
unfolding close_tab release_tab
close_tab-IsValid s t v = elim (Option-cases (tab_named s.tabs t)) [
  | inl e ↦ (
    release_tab s t,
    rw (e, close_tab),
    release_tab-IsValid s t v (λ ws n. hidden_of_closed s t v ws n e),
  )
  | inr (x, e) ↦ elim (Option-cases (lookup x.workspace_id s.layout)) [
    | inl l ↦ (
      release_tab s t,
      rw (e, close_tab, l),
      release_tab-IsValid s t v (λ ws n k.
          hidden-elsewhere s t v ws n x e (ne_of_lookup x.workspace_id ws s.layout l k) k),
    )
    | inr (n, l) ↦
        let ws = x.workspace_id in
        let (r, f, w) =
          with_layout-IsValid (release_tab s t) ws (remove_tab n t)
            (remove_tab-Fits s.tabs ws t n (v.layouts ws n l))
            (release_tab-AllFit s t v ws (λ ws' n' o k. hidden-elsewhere s t v ws' n' x e o k))
            (close_in-IsDistinct s.tabs t v.distinct) in
        (r, rw (e, close_tab, l) f, w)
  ]
]

-- Closing one pane's instance of a tab succeeds on a valid store and keeps it so.
pub close_tab_instance-IsValid :
    (s : IdeState) (group_id t : String)
    → IsValid s
    → (r : IdeState) × (close_tab_instance s group_id t ≡ some r) × IsValid r
unfolding close_tab_instance release_tab
close_tab_instance-IsValid s group_id t v = elim (Option-cases (tab_named s.tabs t)) [
  | inl e ↦ (s, rw (e, close_tab_instance), v)
  | inr (x, e) ↦ elim (Option-cases (lookup x.workspace_id s.layout)) [
    | inl l ↦ (s, rw (e, close_tab_instance, l), v)
    | inr (n, l) ↦
        let ws = x.workspace_id in
        let next = remove_tab_from_group n group_id t in
        let f = remove_tab_from_group-Fits s.tabs ws group_id t n (v.layouts ws n l) in
        elim (Bool-cases (shows next t)) [
          | inl h ↦
              let (r, g, w) =
                with_layout-IsValid s ws next f (λ ws' n' _. v.layouts ws' n') v.distinct in
              (r, rw (e, close_tab_instance, l, h) g, w)
          | inr h ↦
              let (r, g, w) =
                with_layout-IsValid (release_tab s t) ws next (close_in-Fits s.tabs ws t next h f)
                  (release_tab-AllFit s t v ws
                    (λ ws' n' o k. hidden-elsewhere s t v ws' n' x e o k))
                  (close_in-IsDistinct s.tabs t v.distinct) in
              (r, rw (e, close_tab_instance, l, h) g, w)
        ]
  ]
]
