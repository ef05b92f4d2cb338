-- ===== src/Store/Valid.antt =====
-- The invariant of the store, and how it passes to a state with other tabs or another layout.
pub mod Groups
pub mod Opening
pub mod Closing
pub mod Moving
pub mod Frames
use sqlwarden.Common.{
  ℕ, ◌≡◌, refl, Bool, true, false, not, ◌&&◌, List, [], ◌∷◌, ◌++◌, Option, none, some, String,
  if◌then◌else◌, ◌==◌, string_eq, nat_eq, lookup, insert, any, map, filter, includes, arith, All,
  IsDistinct, inl, inr, subst, ◌∙◌, Bool-cases, All-weaken, ap₂, sym, lookup-insert,
}
use sqlwarden.Layout.Tree.{GroupNode, LayoutNode, all_groups}
use sqlwarden.Layout.Sound.{IsSound}
use sqlwarden.Store.State.{IdeState, EditorTab}
use Groups.{is_listed, IsListedGroup}

-- A layout that belongs to a workspace with these tabs.
pub record Fits (tabs : List EditorTab) (ws : ℕ) (n : LayoutNode) : Type 0 where
  pub sound : IsSound n
  pub listed : All (IsListedGroup tabs ws) (all_groups n)

abbrev pub AllFit : List EditorTab → List (ℕ × LayoutNode) → Type 0
AllFit tabs m = (ws : ℕ) (n : LayoutNode) → lookup ws m ≡ some n → Fits tabs ws n

-- Layouts are sound, show open tabs of their own workspace only, and no two tabs share an id.
pub record IsValid (s : IdeState) : Type 0 where
  pub layouts : AllFit s.tabs s.layout
  pub distinct : IsDistinct (map (λ t. t.id) s.tabs)

-- A new layout for one workspace, where the layouts of the others fit.
pub AllFit-insert_others :
    (tabs : List EditorTab) (m : List (ℕ × LayoutNode)) (ws : ℕ) (n : LayoutNode)
    → ((ws' : ℕ) (n' : LayoutNode)
        → (ws == ws') ≡ false
        → lookup ws' m ≡ some n'
        → Fits tabs ws' n')
    → Fits tabs ws n
    → AllFit tabs (insert ws n m)
AllFit-insert_others tabs m ws n h f ws' n' e = elim (Bool-cases (ws == ws')) [
  | inl same ↦
      let p : ws ≡ ws' = (nat_eq.test_iff ws ws').0 same in
      let q : n ≡ n' = ground (arith, lookup-insert ws ws' n m) in
      subst (λ w. Fits tabs w n') p (subst (Fits tabs ws) q f)
  | inr other ↦ h ws' n' other (ground (arith, lookup-insert ws ws' n m))
]

pub AllFit-insert :
    (tabs : List EditorTab) (m : List (ℕ × LayoutNode)) (ws : ℕ) (n : LayoutNode)
    → AllFit tabs m
    → Fits tabs ws n
    → AllFit tabs (insert ws n m)
AllFit-insert tabs m ws n h = AllFit-insert_others tabs m ws n (λ ws' n' _. h ws' n')

pub Fits-tabs :
    (tabs tabs' : List EditorTab) (ws : ℕ) (n : LayoutNode)
    → ((t : String) → is_listed tabs ws t ≡ true → is_listed tabs' ws t ≡ true)
    → Fits tabs ws n
    → Fits tabs' ws n
Fits-tabs tabs tabs' ws n h f = record {
  sound = f.sound;
  listed = All-weaken _ _ (λ g k t i. h t (k t i)) (all_groups n) f.listed;
}

pub AllFit-tabs :
    (tabs tabs' : List EditorTab) (m : List (ℕ × LayoutNode))
    → ((ws : ℕ) (t : String) → is_listed tabs ws t ≡ true → is_listed tabs' ws t ≡ true)
    → AllFit tabs m
    → AllFit tabs' m
AllFit-tabs tabs tabs' m h f ws n e = Fits-tabs tabs tabs' ws n (h ws) (f ws n e)

-- A change of tabs that keeps ids and workspaces keeps the invariant.
is_listed-map :
    (f : EditorTab → EditorTab) (tabs : List EditorTab) (ws : ℕ) (t : String)
    → ((x : EditorTab) → ((f x).id ≡ x.id) × ((f x).workspace_id ≡ x.workspace_id))
    → is_listed (map f tabs) ws t ≡ is_listed tabs ws t
is_listed-map f [] ws t h = refl
is_listed-map f (x ∷ xs) ws t h = ground (arith, h x, is_listed-map f xs ws t h)

map-id-map :
    (f : EditorTab → EditorTab) (tabs : List EditorTab)
    → ((x : EditorTab) → (f x).id ≡ x.id)
    → map (λ x. x.id) (map f tabs) ≡ map (λ x. x.id) tabs
map-id-map f [] h = refl
map-id-map f (x ∷ xs) h = ap₂ ◌∷◌ (h x) (map-id-map f xs h)

pub map-IsValid :
    (s : IdeState) (f : EditorTab → EditorTab)
    → ((x : EditorTab) → ((f x).id ≡ x.id) × ((f x).workspace_id ≡ x.workspace_id))
    → IsValid s
    → IsValid (record s { tabs = map f s.tabs })
map-IsValid s f h v = record {
  layouts =
      AllFit-tabs s.tabs (map f s.tabs) s.layout (λ ws t k. is_listed-map f s.tabs ws t h ∙ k)
        v.layouts;
  distinct = subst IsDistinct (sym (map-id-map f s.tabs (λ x. (h x).0))) v.distinct;
}
