-- ===== src/Values/Grid.antt =====
-- frontend/src/components/ide/resultGridNav.ts: moving the selected cell of the result grid.
-- `Math.max(0, n - 1)` is the subtraction of ℕ; `Math.min(count - 1, n + 1)` is -1 for an empty grid,
-- which has no cell to select: the model gives 0 there.
use sqlwarden.Common.{
  ℕ, String, Option, none, some, ◌<◌, if◌then◌else◌, ◌==◌, ◌≡◌, ◌-◌, ◌≤◌, min, ◌+◌, string_eq,
  arith,
}

pub record GridCell : Type 0 where
  pub row_idx : ℕ
  pub col_idx : ℕ

unfoldable pub next_cell : String → GridCell → ℕ → ℕ → Option GridCell
next_cell key current row_count col_count =
    if key == "ArrowUp"
    then some (record current { row_idx = current.row_idx - 1 })
    else if key == "ArrowDown"
    then some (record current { row_idx = min (row_count - 1) (current.row_idx + 1) })
    else if key == "ArrowLeft"
    then some (record current { col_idx = current.col_idx - 1 })
    else if key == "ArrowRight"
    then some (record current { col_idx = min (col_count - 1) (current.col_idx + 1) })
    else none

-- An arrow key moves a selected cell of the grid to a cell of the grid, one row or column away at most.
pub next_cell-inside :
    (key : String) (current r : GridCell) (row_count col_count : ℕ)
    → current.row_idx < row_count
    → current.col_idx < col_count
    → next_cell key current row_count col_count ≡ some r
    → (r.row_idx < row_count)
      × (r.col_idx < col_count)
      × (r.row_idx ≤ current.row_idx + 1)
      × (current.row_idx ≤ r.row_idx + 1)
      × (r.col_idx ≤ current.col_idx + 1)
      × (current.col_idx ≤ r.col_idx + 1)
unfolding next_cell
next_cell-inside key current r row_count col_count h k e = ground arith
