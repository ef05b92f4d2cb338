-- ===== src/Store/Consoles/Named.antt =====
-- A tab with the id of a console is a console of the workspace that the id names.
use text.Mathlib.TextLemmas.{cons-append}
use sqlwarden.Store.Consoles.{console_id, console_tab, scratch, is_open}
use sqlwarden.Store.Consoles.Fresh.{AreConsoles}
use sqlwarden.Store.State.{IdeState, EditorTab}
use sqlwarden.Store.Tabs.{with_tab}
use sqlwarden.Common.{
  ℕ, ◌<>◌, print_number, leading_number, leading_number-print_number, strip_prefix,
  strip_prefix-append, All, String, Bool, List, Option, ◌≡◌, sym, if_both, ◌++◌, filter, All-weaken,
  ◌∙◌, map, some, get_or_else, refl, ◌∷◌, ap, none, [],
}

abbrev pub IsConsole : EditorTab → Type 0
IsConsole tab =
    (ws n : ℕ) → tab.id ≡ console_id ws n → (tab.workspace_id ≡ ws) × (tab.kind ≡ scratch)

abbrev pub HasConsoles : List EditorTab → Type 0
HasConsoles tabs = All IsConsole tabs

pub HasConsoles-AreConsoles :
    (tabs : List EditorTab) (ws : ℕ) → HasConsoles tabs → AreConsoles tabs ws
HasConsoles-AreConsoles tabs ws h = All-weaken _ _ (λ tab q n. q ws n) tabs h

leading_colon : (n : ℕ) (text : String) → leading_number n (":" <> text) ≡ n
unfolding leading_number
leading_colon n text = rw cons-append refl

-- The workspace is read from the id.
abbrev read_workspace : String → ℕ
read_workspace id = leading_number 0 (get_or_else (strip_prefix "scratch:" id) "")

read_workspace-console_id : (ws n : ℕ) → read_workspace (console_id ws n) ≡ ws
unfolding console_id
read_workspace-console_id ws n =
    rw (strip_prefix-append "scratch:")
      (leading_number-print_number ws (":" <> print_number n) ∙ leading_colon ws (print_number n))

console_id-workspace : (ws n ws' n' : ℕ) → console_id ws n ≡ console_id ws' n' → ws ≡ ws'
console_id-workspace ws n ws' n' e =
    sym (read_workspace-console_id ws n) ∙ ap read_workspace e ∙ read_workspace-console_id ws' n'

pub console_tab-IsConsole :
    (ws n : ℕ) (y : List ℕ) (c : Option ℕ) (d : Option String) → IsConsole (console_tab ws n y c d)
unfolding console_tab
console_tab-IsConsole ws n y c d ws' n' e = (console_id-workspace ws n ws' n' e, refl)

-- An id without the prefix of consoles is no console's.
pub unprefixed-IsConsole : (tab : EditorTab) → strip_prefix "scratch:" tab.id ≡ none → IsConsole tab
unfolding console_id
unprefixed-IsConsole tab other ws n e =
    let prefixed =
      sym other
      ∙ ap (strip_prefix "scratch:") e
      ∙ strip_prefix-append "scratch:" (print_number ws <> (":" <> print_number n)) in
    cc

module _ (P : EditorTab → Type 0) where
  pub All-append_one :
      (tabs : List EditorTab) (tab : EditorTab) → All P tabs → P tab → All P (tabs ++ tab ∷ [])
  All-append_one [] tab h p = (p, tt)
  All-append_one (t ∷ tabs) tab (q, h) p = (q, All-append_one tabs tab h p)

  pub All-filter :
      (f : EditorTab → Bool) (tabs : List EditorTab) → All P tabs → All P (filter f tabs)
  All-filter f [] h = tt
  All-filter f (t ∷ tabs) (q, h) =
      if_both (All P) (f t) (q, All-filter f tabs h) (All-filter f tabs h)

  pub All-map :
      (f : EditorTab → EditorTab) (tabs : List EditorTab)
      → ((t : EditorTab) → P t → P (f t))
      → All P tabs
      → All P (map f tabs)
  All-map f [] k h = tt
  All-map f (t ∷ tabs) k (q, h) = (k t q, All-map f tabs k h)

  pub with_tab-All :
      (tabs : List EditorTab) (tab : EditorTab) → All P tabs → P tab → All P (with_tab tabs tab)
  unfolding with_tab
  with_tab-All tabs tab h p = if_both (All P) (is_open tabs tab.id) h (All-append_one tabs tab h p)

-- The outcome of an action has such tabs.
abbrev pub Keeps : Option IdeState → Type 0
Keeps none = Unit
Keeps (some r) = HasConsoles r.tabs
