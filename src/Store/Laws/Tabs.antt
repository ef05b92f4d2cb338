-- ===== src/Store/Laws/Tabs.antt =====
-- Closing a tab and one pane's instance of it: what is forgotten, and what stays.
use sqlwarden.Store.Valid.Closing.{close_tab-IsValid, shows-listed}
use sqlwarden.Layout.Flat.{shows}
use sqlwarden.Layout.Shown.{shows_outside, shows-remove_tab_from_group}
use sqlwarden.Store.Valid.Groups.{is_listed, close_in}
use sqlwarden.Common.{
  [], refl, ℕ, ◌≡◌, true, false, List, none, some, String, if◌then◌else◌, ◌==◌, string_eq, lookup,
  arith, Dict, insert, Option-cases, lookup-erase, inl, ◌∷◌, nat_eq, Bool-cases, inr, subst, ap,
  sym, ◌∙◌, eq_iff, beq_refl, lookup-insert_self,
}
use sqlwarden.Layout.Tree.{LayoutNode, all_groups}
use sqlwarden.Layout.Tabs.{remove_tab_from_group, remove_tab}
use sqlwarden.Store.State.{IdeState, EditorTab}
use sqlwarden.Store.Tabs.{
  close_tab, close_tab_instance, release_tab, with_layout, is_open, tab_named, append_controller,
  refocus,
}
use sqlwarden.Store.Valid.{IsValid}

-- `m'` is `m` without the key.
abbrev pub Forgets {ℓ} : {V : Type ℓ} → String → Dict String V → Dict String V → Type ℓ
Forgets t m m' = (j : String) → lookup j m' ≡ (if t == j then none else lookup j m)

-- The tab is gone with all that is kept by its id, its request is aborted, and no other entry of
-- these dictionaries changes.
pub record Released (s : IdeState) (t : String) (r : IdeState) : Type 0 where
  pub closed : is_open r.tabs t ≡ false
  pub runs : Forgets t s.result_runs r.result_runs
  pub running : Forgets t s.running_tabs r.running_tabs
  pub controllers : Forgets t s.abort_controllers r.abort_controllers
  pub confirmations : Forgets t s.pending_confirmations r.pending_confirmations
  pub selections : Forgets t s.selected_run_id r.selected_run_id
  pub request : r.aborted ≡ append_controller (lookup t s.abort_controllers) s.aborted

is_open-filter : (tabs : List EditorTab) (t : String) → is_open (close_in t tabs) t ≡ false
is_open-filter [] t = refl
is_open-filter (x ∷ xs) t = ground (arith, is_open-filter xs t)

release_tab-Released : (s : IdeState) (t : String) → Released s t (release_tab s t)
unfolding release_tab
release_tab-Released s t = record {
  closed = is_open-filter s.tabs t;
  runs = λ j. lookup-erase t j s.result_runs;
  running = λ j. lookup-erase t j s.running_tabs;
  controllers = λ j. lookup-erase t j s.abort_controllers;
  confirmations = λ j. lookup-erase t j s.pending_confirmations;
  selections = λ j. lookup-erase t j s.selected_run_id;
  request = refl;
}

-- The fields that a new layout leaves alone.
with_layout-Released :
    (s q : IdeState) (t : String) (ws : ℕ) (n : LayoutNode) (r : IdeState)
    → with_layout q ws n ≡ some r
    → Released s t q
    → Released s t r
unfolding with_layout
with_layout-Released s q t ws n r e v =
    elim (Option-cases (refocus n (lookup ws q.active_group_id))) [
      | inl f ↦ ground arith
      | inr (id, f) ↦
          let q' : IdeState = record q {
            layout = insert ws n q.layout;
            active_group_id = insert ws id q.active_group_id;
          } in
          let same : q' ≡ r = ground arith in
          subst (Released s t) same (record {
            closed = v.closed;
            runs = v.runs;
            running = v.running;
            controllers = v.controllers;
            confirmations = v.confirmations;
            selections = v.selections;
            request = v.request;
          })
    ]

with_layout-frame :
    (s : IdeState) (ws : ℕ) (n : LayoutNode) (r : IdeState)
    → with_layout s ws n ≡ some r
    → (r.tabs ≡ s.tabs)
      × (r.result_runs ≡ s.result_runs)
      × (r.running_tabs ≡ s.running_tabs)
      × (r.abort_controllers ≡ s.abort_controllers)
      × (r.aborted ≡ s.aborted)
unfolding with_layout
with_layout-frame s ws n r e = elim (Option-cases (refocus n (lookup ws s.active_group_id))) [
  | inl f ↦ ground arith
  | inr (id, f) ↦
      let q : IdeState = record s {
        layout = insert ws n s.layout;
        active_group_id = insert ws id s.active_group_id;
      } in
      let same : q ≡ r = ground arith in
      (
        ap (λ p. p.tabs) (sym same),
        ap (λ p. p.result_runs) (sym same),
        ap (λ p. p.running_tabs) (sym same),
        ap (λ p. p.abort_controllers) (sym same),
        ap (λ p. p.aborted) (sym same),
      )
]

is_listed-open :
    (tabs : List EditorTab) (ws : ℕ) (t : String)
    → is_listed tabs ws t ≡ true
    → is_open tabs t ≡ true
is_listed-open [] ws t h = h
is_listed-open (x ∷ xs) ws t h = ground (arith, is_listed-open xs ws t)

close_tab-Released_lem :
    (s : IdeState) (t : String) (r : IdeState) → close_tab s t ≡ some r → Released s t r
unfolding close_tab
close_tab-Released_lem s t r e =
    let freed = release_tab-Released s t in
    elim (Option-cases (tab_named s.tabs t)) [
      | inl f ↦ subst (Released s t) (ground arith) freed
      | inr (x, f) ↦ elim (Option-cases (lookup x.workspace_id s.layout)) [
        | inl l ↦ subst (Released s t) (ground arith) freed
        | inr (n, l) ↦
            with_layout-Released s (release_tab s t) t x.workspace_id (remove_tab n t) r
              (ground arith) freed
      ]
    ]

-- `closeTab` on a valid store forgets the tab: nothing kept by its id is left, its request is aborted,
-- no layout of any workspace shows it, and the entries of the other tabs are as they were.
pub close_tab-Released :
    (s : IdeState) (t : String) (r : IdeState)
    → IsValid s
    → close_tab s t ≡ some r
    → Released s t r × ((ws : ℕ) (n : LayoutNode) → lookup ws r.layout ≡ some n → shows n t ≡ false)
close_tab-Released s t r v e = (close_tab-Released_lem s t r e, hidden)
  where
    gone : Released s t r
    gone = close_tab-Released_lem s t r e

    hidden : (ws : ℕ) (n : LayoutNode) → lookup ws r.layout ≡ some n → shows n t ≡ false
    hidden ws n l = elim (Bool-cases (shows n t)) [
      | inr h ↦ h
      | inl h ↦
          let (q, f, w) = close_tab-IsValid s t v in
          let same : q ≡ r = ground arith in
          let w' = subst IsValid same w in
          let k =
            is_listed-open r.tabs ws t
              (shows-listed r.tabs ws t (all_groups n) (w'.layouts ws n l).listed h) in
          cc (gone.closed)
    ]

-- The workspace has the new layout.
with_layout-lookup :
    (s : IdeState) (ws : ℕ) (n : LayoutNode) (r : IdeState)
    → with_layout s ws n ≡ some r
    → lookup ws r.layout ≡ some n
unfolding with_layout
with_layout-lookup s ws n r e = elim (Option-cases (refocus n (lookup ws s.active_group_id))) [
  | inl f ↦ ground arith
  | inr (id, f) ↦
      let q : IdeState = record s {
        layout = insert ws n s.layout;
        active_group_id = insert ws id s.active_group_id;
      } in
      let same : q ≡ r = ground arith in
      ap (λ p. lookup ws p.layout) (sym same) ∙ lookup-insert_self ws n s.layout
]

-- `closeTabInstance`, where it succeeds, on a listed tab whose workspace has a layout: afterwards
-- the layout shows the tab exactly if a pane with another id than the given one showed it, and every
-- other tab as before. If such a pane showed it, the open tabs, the runs, the running tabs and the
-- controllers stay and nothing is aborted; if none did, the tab is forgotten as by `closeTab`.
pub close_tab_instance-Released :
    (s : IdeState) (group_id t : String) (x : EditorTab) (n : LayoutNode) (r : IdeState)
    → tab_named s.tabs t ≡ some x
    → lookup x.workspace_id s.layout ≡ some n
    → close_tab_instance s group_id t ≡ some r
    → ((n' : LayoutNode) × (lookup x.workspace_id r.layout ≡ some n')
        × ((u : String)
            → shows n' u ≡ (if u == t then shows_outside (all_groups n) group_id t else shows n u)))
      × (shows_outside (all_groups n) group_id t ≡ true
          → (r.tabs ≡ s.tabs)
            × (r.result_runs ≡ s.result_runs)
            × (r.running_tabs ≡ s.running_tabs)
            × (r.abort_controllers ≡ s.abort_controllers)
            × (r.aborted ≡ s.aborted))
      × (shows_outside (all_groups n) group_id t ≡ false → Released s t r)
unfolding close_tab_instance
close_tab_instance-Released s group_id t x n r e l c =
    let n' = remove_tab_from_group n group_id t in
    let law : (u : String)
        → shows n' u ≡ (if u == t then shows_outside (all_groups n) group_id t else shows n u) =
      λ u. ground (arith, shows-remove_tab_from_group n group_id t u, eq_iff u t) in
    let outside : shows n' t ≡ shows_outside (all_groups n) group_id t =
      ground (arith, law t, beq_refl t) in
    let kept : with_layout (if shows n' t then s else release_tab s t) x.workspace_id n' ≡ some r =
      ground (arith, e, l, c) in
    (
      (
        n',
        with_layout-lookup (if shows n' t then s else release_tab s t) x.workspace_id n' r kept,
        law,
      ),
      λ h. with_layout-frame s x.workspace_id n' r (ground (arith, kept, outside, h)),
      λ h.
          with_layout-Released s (release_tab s t) t x.workspace_id n' r
            (ground (arith, kept, outside, h)) (release_tab-Released s t),
    )
