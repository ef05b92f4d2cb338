-- ===== src/Execution/Paging.antt =====
-- frontend/src/components/ide/cursorPaging.ts: a page of a query cursor added to a result.
use sqlwarden.Common.{
  none, some, [], ◌∷◌, String, List, Bool, if◌then◌else◌, ◌≡◌, ◌++◌, false, get_or_else, ℕ,
  option_beq, length, ◌+◌, string_eq, true, ◌||◌, is_some, not, or_else, any, refl, append-nil, ◌∙◌,
  sym, arith, append_assoc, ap, Bool-cases, inl, subst, inr,
}
use sqlwarden.Api.{ResultSet, ResultRow}
use sqlwarden.Store.State.{OkResult}
use sqlwarden.Execution.Failure.{
  Failure, api_error, abort_error, other_error, not_an_error, error_message,
}

unfoldable pub rows_of : ResultSet → List ResultRow
rows_of page = get_or_else page.rows []

unfoldable pub is_exhausted : ResultSet → Bool
is_exhausted page = get_or_else page.exhausted true

unfoldable pub merge_data : ResultSet → ResultSet → String → ResultSet
merge_data old page current_cursor_id = record old {
  rows = some (rows_of old ++ rows_of page);
  rows_returned = length (rows_of old ++ rows_of page);
  bytes_returned = old.bytes_returned + page.bytes_returned;
  truncated = old.truncated || page.truncated;
  truncation_reason = or_else page.truncation_reason old.truncation_reason;
  query_cursor_id =
      if is_exhausted page then none else some (get_or_else page.query_cursor_id current_cursor_id);
  exhausted = some (is_exhausted page);
  page_size = or_else page.page_size old.page_size;
}

unfoldable pub merge_cursor_page : OkResult → ResultSet → String → OkResult
merge_cursor_page result page current_cursor_id = record result {
  is_fetching_next_page = some false;
  cursor_message = none;
  result = merge_data result.result page current_cursor_id;
}

-- `error instanceof ApiError && error.code === 'query_cursor_unavailable'`.
unfoldable pub is_cursor_expired : Failure → Bool
is_cursor_expired (api_error e) = option_beq e.code (some "query_cursor_unavailable")
is_cursor_expired (abort_error message) = false
is_cursor_expired (other_error message) = false
is_cursor_expired not_an_error = false

unfoldable pub apply_cursor_page_error : (String → Bool) → OkResult → Failure → OkResult
apply_cursor_page_error is_blank old e = record old {
  is_fetching_next_page = some false;
  cursor_message = some (
      if is_cursor_expired e
      then "Cursor expired. Run the query again."
      else error_message is_blank e "Failed to load more rows.");
  result = record old.result {
    query_cursor_id = if is_cursor_expired e then none else old.result.query_cursor_id;
    exhausted = if is_cursor_expired e then some true else old.result.exhausted;
  };
}

-- Pages loaded one after the other: each is asked for with the cursor that the result then holds, and
-- loading stops where it holds none.
unfoldable pub load_pages : OkResult → List ResultSet → OkResult
load_pages result [] = result
load_pages result (page ∷ pages) = elim (result.result.query_cursor_id) [
  | none ↦ result
  | some cursor_id ↦ load_pages (merge_cursor_page result page cursor_id) pages
]

-- The pages up to the first that is the last of its cursor.
abbrev pub read_pages : List ResultSet → List ResultSet
read_pages [] = []
read_pages (page ∷ pages) =
    let rest = read_pages pages in if is_exhausted page then page ∷ [] else page ∷ rest

abbrev pub rows_in : List ResultSet → List ResultRow
rows_in [] = []
rows_in (page ∷ pages) = rows_of page ++ rows_in pages

abbrev pub bytes_in : List ResultSet → ℕ
bytes_in [] = 0
bytes_in (page ∷ pages) = page.bytes_returned + bytes_in pages

load_pages-stopped :
    (r : OkResult) (pages : List ResultSet)
    → r.result.query_cursor_id ≡ none
    → load_pages r pages ≡ r
unfolding load_pages
load_pages-stopped r [] e = refl
load_pages-stopped r (page ∷ pages) e =
    ap
      (λ c. elim c as (λ _. OkResult) [
        | none ↦ r
        | some id ↦ load_pages (merge_cursor_page r page id) pages
      ])
      e

-- The result `out` after reading `pages` on the result `r`.
abbrev pub HasPages : OkResult → List ResultSet → OkResult → Type 0
HasPages r pages out =
    (rows_of out.result ≡ rows_of r.result ++ rows_in (read_pages pages))
    × (out.result.bytes_returned ≡ r.result.bytes_returned + bytes_in (read_pages pages))
    × (out.sql ≡ r.sql)
    × (out.result.columns ≡ r.result.columns)
    × (is_some out.result.query_cursor_id ≡ not (any is_exhausted pages))

last_page :
    (r : OkResult) (page : ResultSet) (pages : List ResultSet) (cursor_id : String)
    → is_exhausted page ≡ true
    → HasPages r (page ∷ pages) (merge_cursor_page r page cursor_id)
unfolding merge_cursor_page merge_data rows_of
last_page r page pages cursor_id x =
    (rw (x, append-nil (rows_of page)) refl, ground arith, refl, refl, ground arith)

next_page :
    (r : OkResult) (page : ResultSet) (pages : List ResultSet) (cursor_id : String) (out : OkResult)
    → is_exhausted page ≡ false
    → HasPages (merge_cursor_page r page cursor_id) pages out
    → HasPages r (page ∷ pages) out
unfolding merge_cursor_page merge_data rows_of
next_page r page pages cursor_id out x (a, b, c, d, e) = (
  rw (x) (a ∙ append_assoc (rows_of r.result) (rows_of page) (rows_in (read_pages pages))),
  ground arith,
  c,
  d,
  ground arith,
)

open_cursor :
    (r : OkResult) (page : ResultSet) (cursor_id : String)
    → (merge_cursor_page r page cursor_id).result.query_cursor_id
      ≡ (if is_exhausted page then none else some (get_or_else page.query_cursor_id cursor_id))
unfolding merge_cursor_page merge_data
open_cursor r page cursor_id = refl

-- A result with an open cursor that is paged to its end: its rows are its own and those of the pages up
-- to the first that exhausts the cursor, in order, the bytes add up, the statement and the columns stay,
-- and a cursor is held at the end exactly if no page was the last of its cursor.
pub load_pages-HasPages :
    (r : OkResult) (pages : List ResultSet) (cursor_id : String)
    → r.result.query_cursor_id ≡ some cursor_id
    → HasPages r pages (load_pages r pages)
unfolding load_pages
load_pages-HasPages r [] cursor_id e =
    (sym (append-nil (rows_of r.result)), omega arith, refl, refl, ap is_some e)
load_pages-HasPages r (page ∷ pages) cursor_id e =
    let next = merge_cursor_page r page cursor_id in
    let opened : load_pages r (page ∷ pages) ≡ load_pages next pages =
      ap
        (λ c. elim c as (λ _. OkResult) [
          | none ↦ r
          | some id ↦ load_pages (merge_cursor_page r page id) pages
        ])
        e in
    let cursor = open_cursor r page cursor_id in
    elim (Bool-cases (is_exhausted page)) [
      | inl x ↦
          let stopped = load_pages-stopped next pages (cursor ∙ ground arith) in
          subst (HasPages r (page ∷ pages)) (sym (opened ∙ stopped))
            (last_page r page pages cursor_id x)
      | inr x ↦ subst (HasPages r (page ∷ pages)) (sym opened) (
          next_page r page pages cursor_id (load_pages next pages) x (
            load_pages-HasPages next pages (get_or_else page.query_cursor_id cursor_id)
              (cursor ∙ ground arith)))
    ]
