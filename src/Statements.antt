-- ===== src/Statements.antt =====
-- frontend/src/components/ide/sqlStatements.ts: splitting a text into SQL statements.
-- A text is its list of UTF-16 code units, and an offset an index of that list.
pub mod Kept
pub mod Snippets
use sqlwarden.Common.{
  ℕ, Bool, true, false, not, List, [], ◌∷◌, Option, none, some, leb, ◌+◌, filter, suc,
  if◌then◌else◌, find, length, take, ◌-◌, option_beq, drop, ◌==◌, ◌&&◌, get_elem?, ltb, ◌||◌,
  nat_eq, map, get_last?, includes,
}

abbrev pub Text : Type 0
Text = List ℕ

-- `\s`, which is also what `trim` strips.
unfoldable pub is_space : ℕ → Bool
is_space u =
    (leb 9 u && leb u 13)
    || includes (32 ∷ 160 ∷ 5760 ∷ 8232 ∷ 8233 ∷ 8239 ∷ 8287 ∷ 12288 ∷ 65279 ∷ []) u
    || (leb 8192 u && leb u 8202)

-- `'`, `"`, `-`, `/`, `*`, `;` and the newline.
abbrev pub quote : ℕ
quote = 39

abbrev pub double_quote : ℕ
double_quote = 34

abbrev pub dash : ℕ
dash = 45

abbrev pub slash : ℕ
slash = 47

abbrev pub star : ℕ
star = 42

abbrev pub semicolon : ℕ
semicolon = 59

abbrev pub newline : ℕ
newline = 10

pub data LexState : Type 0 where
  normal sq dq lc bc : LexState

-- One turn of the loop: the next state, whether the next unit is passed over (`i++`), and whether the
-- unit is a statement's semicolon.
unfoldable pub lex_step : LexState → ℕ → Option ℕ → LexState × Bool × Bool
lex_step normal c n =
    if c == quote
    then (sq, false, false)
    else if c == double_quote
    then (dq, false, false)
    else if c == dash && option_beq n (some dash)
    then (lc, true, false)
    else if c == slash && option_beq n (some star)
    then (bc, true, false)
    else (normal, false, c == semicolon)
lex_step sq c n =
    if c == quote && option_beq n (some quote)
    then (sq, true, false)
    else if c == quote
    then (normal, false, false)
    else (sq, false, false)
lex_step dq c n =
    if c == double_quote && option_beq n (some double_quote)
    then (dq, true, false)
    else if c == double_quote
    then (normal, false, false)
    else (dq, false, false)
lex_step lc c n = if c == newline then (normal, false, false) else (lc, false, false)
lex_step bc c n =
    if c == star && option_beq n (some slash) then (normal, true, false) else (bc, false, false)

-- The offsets of the semicolons, from the index `i` on; a unit that is passed over changes nothing.
unfoldable pub find_semis : LexState → Bool → ℕ → Text → List ℕ
find_semis state passing i [] = []
find_semis state true i (c ∷ cs) = find_semis state false (suc i) cs
find_semis state false i (c ∷ cs) =
    let (next, pass, semi) = lex_step state c (get_elem? cs 0) in
    let rest = find_semis next pass (suc i) cs in if semi then i ∷ rest else rest

-- The length of the white space that a text begins with.
unfoldable pub count_spaces : Text → ℕ
count_spaces [] = 0
count_spaces (c ∷ cs) = let n = count_spaces cs in if is_space c then suc n else 0

unfoldable pub skip_spaces : Text → ℕ → ℕ
skip_spaces text i = i + count_spaces (drop i text)

-- `text.slice(start, end)`.
unfoldable pub slice : Text → ℕ → ℕ → Text
slice text start stop = take (stop - start) (drop start text)

unfoldable pub trim_start : Text → Text
trim_start [] = []
trim_start (c ∷ cs) = let rest = trim_start cs in if is_space c then rest else c ∷ cs

unfoldable pub trim_end : Text → Text
trim_end [] = []
trim_end (c ∷ cs) =
    let rest = trim_end cs in if is_space c && length rest == 0 then [] else c ∷ rest

unfoldable pub trim : Text → Text
trim text = trim_end (trim_start text)

-- The second loop, and the content after the last semicolon.
unfoldable pub cut_spans : Text → ℕ → List ℕ → List (ℕ × ℕ)
cut_spans text start [] =
    if length (trim (drop start text)) == 0 then [] else (start, length text) ∷ []
cut_spans text start (semi ∷ semis) =
    (start, semi + 1) ∷ cut_spans text (skip_spaces text (semi + 1)) semis

unfoldable pub sql_statement_spans : Text → List (ℕ × ℕ)
sql_statement_spans text = elim (find_semis normal false 0 text) [
  | [] ↦ (0, length text) ∷ []
  | semi ∷ semis ↦ cut_spans text 0 (semi ∷ semis)
]

unfoldable pub span_text : Text → ℕ × ℕ → Text
span_text text (start, stop) = slice text start stop

unfoldable pub count_sql_statements : Text → ℕ
count_sql_statements text =
    length (filter (λ span. ltb 0 (length (trim (span_text text span)))) (sql_statement_spans text))

unfoldable pub strip_semicolon : Text → Text
strip_semicolon statement =
    if option_beq (get_last? statement) (some semicolon)
    then trim (take (length statement - 1) statement)
    else statement

unfoldable pub split_sql_statements : Text → List Text
split_sql_statements text =
    filter (λ statement. ltb 0 (length statement))
      (map (λ span. strip_semicolon (trim (span_text text span))) (sql_statement_spans text))

-- The last span that starts at or before the cursor, `best` if there is none.
unfoldable pub best_span : ℕ → ℕ × ℕ → List (ℕ × ℕ) → ℕ × ℕ
best_span cursor best [] = best
best_span cursor best (span ∷ spans) =
    best_span cursor (if leb span.0 cursor then span else best) spans

-- The list of spans is never empty, so `spans[0]` is there.
unfoldable pub sql_statement_at_cursor : Text → ℕ → Option Text
sql_statement_at_cursor text cursor =
    let spans = sql_statement_spans text in
    elim (find (λ span. leb span.0 cursor && ltb cursor span.1) spans) [
      | some span ↦ some (trim (span_text text span))
      | none ↦ elim (get_elem? spans 0) [
        | none ↦ none
        | some first ↦ some (trim (span_text text (best_span cursor first spans)))
      ]
    ]
