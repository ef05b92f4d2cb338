-- ===== src/Store/Consoles/Fresh.antt =====
-- A console that is opened is a new tab.
use text.Mathlib.TextLemmas.{cons-append}
use sqlwarden.Store.Laws.Focus.{open_tab-shown}
use sqlwarden.Store.Consoles.{
  console_id, console_number, max_number, next_number, console_tab, show_console, open_console,
  is_scratch, LayoutNode, scratch,
}
use sqlwarden.Store.State.{IdeState, EditorTab, ensure_workspace_layout, active_tab_id}
use sqlwarden.Store.Tabs.{is_open, open_tab, show_in_place, with_tab}
use sqlwarden.Common.{
  ℕ, true, false, ◌&&◌, List, [], ◌∷◌, ◌++◌, Option, some, String, ◌==◌, nat_eq, string_eq, filter,
  max, ◌≤◌, ◌<>◌, ◌≡◌, refl, arith, print_number, strip_prefix-append, drop_digits-print_number,
  whole_number-print_number, skip_digits, Option-cases, inl, inr, Bool-cases, eq_iff, ap, All, sym,
  ◌∙◌,
}

skip_colon : (text : String) → skip_digits (":" <> text) ≡ ":" <> text
unfolding skip_digits
skip_colon text = rw cons-append refl

-- The number of a console's id is read again.
pub console_number-console_id : (ws n : ℕ) → console_number (console_id ws n) ≡ some n
unfolding console_number console_id skip_digits
console_number-console_id ws n =
    rw
      (
        strip_prefix-append "scratch:",
        drop_digits-print_number ws,
        skip_colon (print_number n),
        strip_prefix-append ":",
        whole_number-print_number n,
      )
      refl

-- The largest number is at least the one that it starts from, and that of every console.
max_number-start : (tabs : List EditorTab) (largest : ℕ) → largest ≤ max_number tabs largest
unfolding max_number
max_number-start [] largest = omega arith
max_number-start (t ∷ tabs) largest = elim (Option-cases (console_number t.id)) [
  | inl e ↦ rw e (max_number-start tabs largest)
  | inr (n, e) ↦ rw e (omega (arith, max_number-start tabs (max largest n)))
]

-- A console whose id has a number is counted.
max_number-counted :
    (ws n : ℕ) (tabs : List EditorTab) (largest : ℕ)
    → is_open tabs (console_id ws n) ≡ true
    → n ≤ max_number tabs largest
unfolding max_number
max_number-counted ws n [] largest h = cc
max_number-counted ws n (t ∷ tabs) largest h = elim (Bool-cases (t.id == console_id ws n)) [
  | inr f ↦ max_number-counted ws n tabs _ (ground (arith, f, h))
  | inl e ↦
      let number : console_number t.id ≡ some n =
        ap console_number ((eq_iff _ _).0 e) ∙ console_number-console_id ws n in
      rw number (omega (arith, max_number-start tabs (max largest n)))
]

-- The tabs whose ids are those of consoles are consoles of that workspace.
abbrev pub AreConsoles : List EditorTab → ℕ → Type 0
AreConsoles tabs ws =
    All (λ t. (n : ℕ) → t.id ≡ console_id ws n → (t.workspace_id ≡ ws) × (t.kind ≡ scratch)) tabs

is_open-consoles :
    (ws n : ℕ) (tabs : List EditorTab)
    → AreConsoles tabs ws
    → is_open tabs (console_id ws n) ≡ true
    → is_open (filter (λ t. t.workspace_id == ws && is_scratch t.kind) tabs) (console_id ws n)
      ≡ true
unfolding is_scratch
is_open-consoles ws n [] a h = h
is_open-consoles ws n (t ∷ tabs) (k, a) h = elim (Bool-cases (t.id == console_id ws n)) [
  | inl e ↦
      let (w, c) = k n ((eq_iff _ _).0 e) in rw ((nat_eq.test_iff t.workspace_id ws).1 w, c, e) refl
  | inr f ↦ ground (arith, f, h, is_open-consoles ws n tabs a)
]

pub next_number-fresh :
    (s : IdeState) (ws : ℕ)
    → AreConsoles s.tabs ws
    → is_open s.tabs (console_id ws (next_number s ws)) ≡ false
unfolding next_number
next_number-fresh s ws a = elim (Bool-cases (is_open s.tabs (console_id ws (next_number s ws)))) [
  | inr f ↦ f
  | inl t ↦
      let there = is_open-consoles ws (next_number s ws) s.tabs a t in
      absurd (omega (arith, max_number-counted ws (next_number s ws) _ 0 there))
]

-- `openConsole` opens its tab as `openTab` does.
pub open_console-open_tab :
    (s : IdeState) (ws : ℕ) (y_state : List ℕ) (c : Option ℕ) (driver : Option String)
    (new_id : String)
    → open_console s ws y_state c driver new_id
      ≡ open_tab s (console_tab ws (next_number s ws) y_state c driver) new_id
unfolding open_console open_tab show_console show_in_place with_tab console_tab
open_console-open_tab s ws y_state c driver new_id = refl

open_tab-tabs :
    (s : IdeState) (tab : EditorTab) (new_id : String) (n : LayoutNode) (id : String) (r : IdeState)
    → is_open s.tabs tab.id ≡ false
    → ensure_workspace_layout s tab.workspace_id new_id ≡ some (n, id)
    → open_tab s tab new_id ≡ some r
    → r.tabs ≡ s.tabs ++ tab ∷ []
unfolding open_tab show_in_place with_tab
open_tab-tabs s tab new_id n id r f e h = ground (arith, f, e, h)

-- `openConsole`, where it succeeds, where the tabs with ids of consoles are consoles of their workspace, and
-- where the pane it goes to has an id that is not empty, adds a tab that was not open, after the other tabs,
-- and makes it the active tab of its workspace.
pub open_console-fresh :
    (s : IdeState) (ws : ℕ) (y_state : List ℕ) (c : Option ℕ) (driver : Option String)
    (new_id : String) (n : LayoutNode) (id : String) (r : IdeState)
    → AreConsoles s.tabs ws
    → ensure_workspace_layout s ws new_id ≡ some (n, id)
    → (id == "") ≡ false
    → open_console s ws y_state c driver new_id ≡ some r
    → (tab : EditorTab) × (is_open s.tabs tab.id ≡ false)
      × (r.tabs ≡ s.tabs ++ tab ∷ [])
      × (active_tab_id r ws ≡ some tab.id)
unfolding console_tab
open_console-fresh s ws y_state c driver new_id n id r a e k h =
    let tab = console_tab ws (next_number s ws) y_state c driver in
    let fresh = next_number-fresh s ws a in
    let opened = sym (open_console-open_tab s ws y_state c driver new_id) ∙ h in
    (
      tab,
      fresh,
      open_tab-tabs s tab new_id n id r fresh e opened,
      (open_tab-shown s tab new_id n id r e k opened).0,
    )
