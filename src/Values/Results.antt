-- ===== src/Values/Results.antt =====
-- frontend/src/components/ide/resultValues.ts and object-detail/previewData.ts: cells and pages of
-- results. The printed number of a value is the text that the record holds.
use sqlwarden.Api.{
  ResultValue, ResultSet, ResultColumn, ResultRow, null, text, integer, float, decimal, bool, time,
  bytes,
}
use sqlwarden.Common.{
  ℕ, Bool, true, false, ◌&&◌, List, [], ◌∷◌, ◌++◌, Option, none, some, String, if◌then◌else◌, ltb,
  leb, min, max, get_or_else, or_else, ◌<>◌,
}

pub record CellCoord : Type 0 where
  pub row_idx : ℕ
  pub col_idx : ℕ

pub record CellSelection : Type 0 where
  pub anchor : CellCoord
  pub active : CellCoord

unfoldable pub is_between : ℕ → ℕ → ℕ → Bool
is_between index a b = leb (min a b) index && leb index (max a b)

unfoldable pub cell_in_range : ℕ → ℕ → Option CellSelection → Bool
cell_in_range row_index column_index none = false
cell_in_range row_index column_index (some selection) =
    is_between row_index selection.anchor.row_idx selection.active.row_idx
    && is_between column_index selection.anchor.col_idx selection.active.col_idx

unfoldable pub is_row_in_range : ℕ → Option CellSelection → Bool
is_row_in_range row_index none = false
is_row_in_range row_index (some selection) =
    is_between row_index selection.anchor.row_idx selection.active.row_idx

pub record Shown : Type 0 where
  pub display : String
  pub is_null : Bool
  pub is_numeric : Bool

abbrev plain : String → Shown
plain display = record { display = display; is_null = false; is_numeric = false }

abbrev number : String → Shown
number display = record { display = display; is_null = false; is_numeric = true }

unfoldable pub format_result_value : ResultValue → Shown
format_result_value value = elim value.value_type [
  | null ↦ record { display = "NULL"; is_null = true; is_numeric = false }
  | text ↦ plain (get_or_else value.text "")
  | integer ↦ number (get_or_else value.integer "0")
  | float ↦ number (get_or_else value.float "0")
  | decimal ↦ number (get_or_else value.decimal "")
  | bool ↦ plain (if get_or_else value.bool false then "true" else "false")
  | time ↦ plain (get_or_else value.time "")
  | bytes ↦ plain "(binary)"
]

-- `undefined` is `none`.
unfoldable pub next_cursor_param : ResultSet → Option String → Option String
next_cursor_param last last_param = elim last.exhausted [
  | none ↦ none
  | some true ↦ none
  | some false ↦ or_else last.query_cursor_id last_param
]

unfoldable pub preview_columns : List ResultSet → List ResultColumn
preview_columns [] = []
preview_columns (page ∷ pages) = get_or_else page.columns []

unfoldable pub preview_rows : List ResultSet → List ResultRow
preview_rows [] = []
preview_rows (page ∷ pages) = get_or_else page.rows [] ++ preview_rows pages

pub record CountDisplay : Type 0 where
  pub text : String
  pub can_show_exact : Bool

-- `print` stands for `String` on numbers.
unfoldable pub row_count_display : (ℕ → String) → Option ℕ → Option ℕ → ℕ → CountDisplay
row_count_display print bounded (some exact) threshold = record {
  text = print exact;
  can_show_exact = false;
}
row_count_display print none none threshold = record { text = "…"; can_show_exact = false }
row_count_display print (some bounded) none threshold =
    if ltb threshold bounded
    then record { text = print threshold <> "+"; can_show_exact = true }
    else record { text = print bounded; can_show_exact = false }
