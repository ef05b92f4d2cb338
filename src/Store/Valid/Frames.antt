-- ===== src/Store/Valid/Frames.antt =====
-- Actions that leave the layouts alone, and consoles: they keep the invariant.
use sqlwarden.Store.Runs.{
  update_runs, close_run_tab, abandon_pending_run_confirmation, put_selection,
}
use sqlwarden.Store.Tabs.{change_content, rename_file, change_connection, change_etag}
use sqlwarden.Common.{
  ℕ, List, Option, some, String, IsDistinct, map, arith, ◌≡◌, subst₂, sym, subst, string_eq, nat_eq,
  ◌∙◌,
}
use sqlwarden.Store.State.{IdeState, EditorTab, ResultRun}
use mathlib.Core.Bool.{false≢true}
use sqlwarden.Store.Consoles.Fresh.{AreConsoles, next_number-fresh, open_console-open_tab}
use sqlwarden.Store.Consoles.{open_console, console_tab, next_number}
use sqlwarden.Store.Valid.{IsValid, AllFit}
use sqlwarden.Store.Valid.Opening.{IsOwn, open_tab-IsValid}

-- An action that leaves tabs and layouts alone.
pub same-IsValid : (s r : IdeState) → r.tabs ≡ s.tabs → r.layout ≡ s.layout → IsValid s → IsValid r
same-IsValid s r p q v = record {
  layouts = subst₂ AllFit (sym p) (sym q) v.layouts;
  distinct = subst (λ ts. IsDistinct (map (λ x. x.id) ts)) (sym p) v.distinct;
}

pub update_runs-IsValid :
    (s : IdeState) (t : String) (f : List ResultRun → List ResultRun)
    → IsValid s
    → IsValid (update_runs s t f)
unfolding update_runs
update_runs-IsValid s t f v = same-IsValid s (update_runs s t f) (ground arith) (ground arith) v

pub abandon-IsValid :
    (s : IdeState) (t : String) → IsValid s → IsValid (abandon_pending_run_confirmation s t)
unfolding abandon_pending_run_confirmation update_runs
abandon-IsValid s t v =
    same-IsValid s (abandon_pending_run_confirmation s t) (ground arith) (ground arith) v

pub close_run_tab-IsValid :
    (s : IdeState) (t r : String) → IsValid s → IsValid (close_run_tab s t r)
unfolding close_run_tab put_selection
close_run_tab-IsValid s t r v = same-IsValid s (close_run_tab s t r) (ground arith) (ground arith) v

abbrev pub SameTab : EditorTab → EditorTab → Type 0
SameTab y x = (y.id ≡ x.id) × (y.workspace_id ≡ x.workspace_id)

pub rename_file-same : (f : ℕ) (name : String) (x : EditorTab) → SameTab (rename_file f name x) x
unfolding rename_file
rename_file-same f name x = (ground arith, ground arith)

pub change_content-same :
    (t c : String) (y : Option (List ℕ)) (x : EditorTab) → SameTab (change_content t c y x) x
unfolding change_content
change_content-same t c y x = (ground arith, ground arith)

pub change_etag-same : (t e : String) (x : EditorTab) → SameTab (change_etag t e x) x
unfolding change_etag
change_etag-same t e x = (ground arith, ground arith)

pub change_connection-same :
    (t : String) (c : ℕ) (d : Option String) (x : EditorTab) → SameTab (change_connection t c d x) x
unfolding change_connection
change_connection-same t c d x = (ground arith, ground arith)

pub open_console-IsValid :
    (s : IdeState) (ws : ℕ) (y : List ℕ) (c : Option ℕ) (d : Option String) (id : String)
    → AreConsoles s.tabs ws
    → IsValid s
    → (r : IdeState) × (open_console s ws y c d id ≡ some r) × IsValid r
unfolding console_tab
open_console-IsValid s ws y c d id a v =
    let tab = console_tab ws (next_number s ws) y c d in
    let own : IsOwn s.tabs tab = λ h. absurd (false≢true (sym (next_number-fresh s ws a) ∙ h)) in
    let (r, e, w) = open_tab-IsValid s tab id own v in
    (r, open_console-open_tab s ws y c d id ∙ e, w)
