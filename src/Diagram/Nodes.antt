-- ===== src/Diagram/Nodes.antt =====
-- frontend/src/components/ide/schema-diagram/diagramModel.ts: the boxes and the edges of a diagram.
-- Of an object's detail, only the relational part is read.
use Prim.Native.String.{compare}
use text.Mathlib.Text.{is_le}
use sqlwarden.Api.{RelationalDetail, DbForeignKey, DbIndex}
use sqlwarden.Common.{
  ℕ, Bool, false, not, List, [], ◌∷◌, ◌++◌, String, if◌then◌else◌, Option, none, some, length, ltb,
  ◌+◌, ◌*◌, min, ◌==◌, string_eq, nat_eq, includes, get_or_else, ◌||◌, ◌&&◌, join, ◌<>◌,
}

abbrev header_height : ℕ
header_height = 34

abbrev row_height : ℕ
row_height = 22

abbrev loading_rows : ℕ
loading_rows = 8

-- `keys.add(column)`.
unfoldable pub add_key : String → List String → List String
add_key column keys = if includes keys column then keys else keys ++ column ∷ []

unfoldable pub add_keys : List String → List String → List String
add_keys [] keys = keys
add_keys (column ∷ columns) keys = add_keys columns (add_key column keys)

-- The first column of each foreign key, unless it is missing or empty.
unfoldable pub add_foreign_keys : List DbForeignKey → List String → List String
add_foreign_keys [] keys = keys
add_foreign_keys (f ∷ foreign_keys) keys =
    add_foreign_keys foreign_keys (elim f.columns [
      | [] ↦ keys
      | column ∷ _ ↦ if column == "" then keys else add_key column keys
    ])

unfoldable pub key_columns : RelationalDetail → List String
key_columns rel =
    add_foreign_keys (get_or_else rel.foreign_keys [])
      (add_keys (get_or_else rel.primary_key []) [])

unfoldable pub column_rows : Option RelationalDetail → Bool → ℕ
column_rows none keys_only = loading_rows
column_rows (some rel) keys_only =
    let all_cols = length rel.columns in
    let keys = length (key_columns rel) in
    if keys_only then keys + (if ltb keys all_cols then 1 else 0) else all_cols

pub record NodeSize : Type 0 where
  pub width : ℕ
  pub height : ℕ

unfoldable pub estimate_node_size : Option RelationalDetail → Bool → Bool → NodeSize
estimate_node_size detail collapsed keys_only =
    let cols = column_rows detail keys_only in
    record {
      width = 240;
      height =
          if collapsed || cols == 0
          then header_height
          else header_height + min cols 40 * row_height;
    }

pub data Direction : Type 0 where
  into out : Direction

unfoldable pub direction_text : Direction → String
direction_text into = "in"
direction_text out = "out"

-- A missing column and an empty one are the same to the source.
unfoldable pub relationship_handle_id :
    Option String → Direction → Bool → List String → List String → String
relationship_handle_id column direction handles_ready available_columns connected_columns =
    let name = get_or_else column "" in
    if not handles_ready
      || name == ""
      || not (includes available_columns name)
      || not (includes connected_columns name)
    then "node:" <> direction_text direction
    else "col:" <> name <> ":" <> direction_text direction

pub data Cardinality : Type 0 where
  one_to_one one_to_many : Cardinality

unfoldable pub place_text : String → List String → List String
place_text text [] = text ∷ []
place_text text (other ∷ texts) =
    if is_le (compare text other) then text ∷ other ∷ texts else other ∷ place_text text texts

unfoldable pub sort_texts : List String → List String
sort_texts [] = []
sort_texts (text ∷ texts) = place_text text (sort_texts texts)

unfoldable pub same_set : List String → List String → Bool
same_set a b = (length a == length b) && (join "\0" (sort_texts a) == join "\0" (sort_texts b))

unfoldable pub has_unique_index : List DbIndex → List String → Bool
has_unique_index [] fk_columns = false
has_unique_index (ix ∷ indexes) fk_columns =
    (ix.unique && same_set ix.columns fk_columns) || has_unique_index indexes fk_columns

unfoldable pub edge_cardinality : List String → Option RelationalDetail → Cardinality
edge_cardinality fk_columns none = one_to_many
edge_cardinality fk_columns (some rel) =
    if length fk_columns == 0
    then one_to_many
    else if elim rel.primary_key [ none ↦ false | some key ↦ same_set key fk_columns ]
    then one_to_one
    else if has_unique_index (get_or_else rel.indexes []) fk_columns
    then one_to_one
    else one_to_many
