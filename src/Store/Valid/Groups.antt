-- ===== src/Store/Valid/Groups.antt =====
-- Panes that show only open tabs of their workspace, and the operations of the layout.
use sqlwarden.Layout.Shown.{
  remove_tab_in-includes, lift_tab-includes, remove_tab_from-includes, land_tab-includes,
}
use sqlwarden.Common.{
  ℕ, ◌≡◌, Bool, true, false, not, ◌&&◌, List, [], ◌∷◌, Option, String, ◌==◌, string_eq, nat_eq, any,
  includes, arith, All, eq_iff, filter, Bool-cases, inl, inr, includes-insert_at, get_or_else,
  length, subst,
}
use sqlwarden.Layout.Tree.{GroupNode}
use sqlwarden.Layout.Tabs.{
  add_tab_to, remove_tab_in, remove_tab_from, activate, activate_in, lift_tab, land_tab, Position,
}
use sqlwarden.Store.State.{EditorTab}

abbrev pub is_listed : List EditorTab → ℕ → String → Bool
is_listed tabs ws t = any (λ x. x.id == t && x.workspace_id == ws) tabs

abbrev pub IsListedGroup : List EditorTab → ℕ → GroupNode → Type 0
IsListedGroup tabs ws g = (t : String) → includes g.tab_ids t ≡ true → is_listed tabs ws t ≡ true

module _ (tabs : List EditorTab) (ws : ℕ) where
  pub add_tab_to-IsListedGroup :
      (group_id t : String) (index : Option ℕ) (g : GroupNode)
      → is_listed tabs ws t ≡ true
      → IsListedGroup tabs ws g
      → IsListedGroup tabs ws (add_tab_to group_id t index g)
  unfolding add_tab_to
  add_tab_to-IsListedGroup group_id t index g l h u i = elim (Bool-cases (t == u)) [
    | inl same ↦ ground (arith, eq_iff t u)
    | inr other ↦
        h u
          (ground (arith, includes-insert_at (get_or_else index (length g.tab_ids)) t g.tab_ids u))
  ]

  pub activate-IsListedGroup :
      (t : String) (g : GroupNode) → IsListedGroup tabs ws g → IsListedGroup tabs ws (activate t g)
  unfolding activate
  activate-IsListedGroup t g h u i = h u (ground arith)

  pub activate_in-IsListedGroup :
      (group_id t : String) (g : GroupNode)
      → IsListedGroup tabs ws g
      → IsListedGroup tabs ws (activate_in group_id t g)
  unfolding activate_in
  activate_in-IsListedGroup group_id t g h u i = h u (ground arith)

  pub lift_tab-IsListedGroup :
      (from_id t : String) (g : GroupNode)
      → IsListedGroup tabs ws g
      → IsListedGroup tabs ws (lift_tab from_id t g)
  lift_tab-IsListedGroup from_id t g h u i = h u (ground (arith, lift_tab-includes from_id t g u))

  pub land_tab-IsListedGroup :
      (to_id t target : String) (position : Position) (g : GroupNode)
      → is_listed tabs ws t ≡ true
      → IsListedGroup tabs ws g
      → IsListedGroup tabs ws (land_tab to_id t target position g)
  land_tab-IsListedGroup to_id t target position g l h u i = elim (Bool-cases (u == t)) [
    | inl same ↦ ground (arith, eq_iff u t)
    | inr other ↦ h u (ground (arith, land_tab-includes to_id t target position g u))
  ]

-- The tabs that are left when one is closed.
abbrev pub close_in : String → List EditorTab → List EditorTab
close_in t tabs = filter (λ x. not (x.id == t)) tabs

pub is_listed-close_in :
    (tabs : List EditorTab) (ws : ℕ) (t u : String)
    → (u == t) ≡ false
    → is_listed tabs ws u ≡ true
    → is_listed (close_in t tabs) ws u ≡ true
is_listed-close_in [] ws t u n h = h
is_listed-close_in (x ∷ xs) ws t u n h =
    ground (arith, is_listed-close_in xs ws t u n, eq_iff x.id t, eq_iff x.id u, eq_iff u t)

module _ (tabs : List EditorTab) (ws : ℕ) (t : String) where
  pub remove_tab_in-IsListedGroup :
      (g : GroupNode)
      → IsListedGroup tabs ws g
      → IsListedGroup (close_in t tabs) ws (remove_tab_in t g)
  remove_tab_in-IsListedGroup g h u i =
      is_listed-close_in tabs ws t u (ground (arith, remove_tab_in-includes t g u))
        (h u (ground (arith, remove_tab_in-includes t g u)))

  pub remove_tab_from-IsListedGroup :
      (group_id : String) (g : GroupNode)
      → IsListedGroup tabs ws g
      → IsListedGroup tabs ws (remove_tab_from group_id t g)
  remove_tab_from-IsListedGroup group_id g h u i =
      h u (ground (arith, remove_tab_from-includes group_id t g u))

  -- Panes that do not show the tab lose nothing when it is closed.
  pub close_in-IsListedGroup :
      (gs : List GroupNode)
      → any (λ g. includes g.tab_ids t) gs ≡ false
      → All (IsListedGroup tabs ws) gs
      → All (IsListedGroup (close_in t tabs) ws) gs
  close_in-IsListedGroup [] n h = tt
  close_in-IsListedGroup (g ∷ gs) n (k, h) = (
    (λ u i. is_listed-close_in tabs ws t u (ground (arith, eq_iff u t, hidden u i)) (k u i)),
    close_in-IsListedGroup gs (ground arith) h,
  )
    where
      hidden : (u : String) → includes g.tab_ids u ≡ true → u ≡ t → ⊥
      hidden u i e =
          let j : includes g.tab_ids t ≡ true = subst (λ w. includes g.tab_ids w ≡ true) e i in
          ground arith
