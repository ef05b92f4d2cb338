-- ===== src/Csv.antt =====
-- frontend/src/components/ide/csv/parseCsv.ts: parsing comma-separated text.
-- A text is its list of UTF-16 code units.
pub mod RoundTrip
use sqlwarden.Common.{
  ℕ, Bool, true, false, not, List, [], ◌∷◌, ◌++◌, Option, none, some, ◌+◌, get_elem?, if◌then◌else◌,
  String, length, max, ◌==◌, ltb, nat_eq, option_beq, ◌||◌, ◌&&◌,
}

abbrev pub Text : Type 0
Text = List ℕ

-- `"`, `,`, the two characters of a line's end, the blanks, and the byte order mark.
abbrev pub quote : ℕ
quote = 34

abbrev pub comma : ℕ
comma = 44

abbrev pub line_feed : ℕ
line_feed = 10

abbrev pub carriage_return : ℕ
carriage_return = 13

abbrev pub byte_order_mark : ℕ
byte_order_mark = 65279

pub record CsvDocument : Type 0 where
  pub headers : List Text
  pub rows : List (List Text)
  pub column_count : ℕ

pub record CsvParseError : Type 0 where
  pub message : String
  pub line : ℕ
  pub column : ℕ

pub record CsvState : Type 0 where
  pub records : List (List Text)
  pub row : List Text
  pub field : Text
  pub in_quotes : Bool
  pub after_quote : Bool
  pub line : ℕ
  pub column : ℕ
  pub record_has_input : Bool

pub data Parsed {ℓ} (A : Type ℓ) : Type ℓ where
  parsed : A → Parsed A
  refused : CsvParseError → Parsed A

unfoldable pub push_field : CsvState → CsvState
push_field s = record s { row = s.row ++ s.field ∷ []; field = []; after_quote = false }

unfoldable pub push_record : CsvState → CsvState
push_record s = record s {
  records = s.records ++ (s.row ++ s.field ∷ []) ∷ [];
  row = [];
  field = [];
  after_quote = false;
  record_has_input = false;
}

-- The end of a line: `column` is 0 and goes up by one.
unfoldable pub end_line : CsvState → CsvState
unfolding push_record
end_line s = record (push_record s) { line = s.line + 1; column = 1 }

unfoldable pub advance : ℕ → CsvState → CsvState
advance n s = record s { column = s.column + n }

unfoldable pub is_line_end : ℕ → Bool
is_line_end c = c == line_feed || c == carriage_return

-- The next state and whether the next unit is passed over (`i += 1`).
unfoldable pub step_quoted : CsvState → ℕ → Option ℕ → CsvState × Bool
step_quoted s c n =
    if c == quote
    then (if option_beq n (some quote)
        then (record (advance 2 s) { field = s.field ++ quote ∷ []; record_has_input = true }, true)
        else (record s { in_quotes = false; after_quote = true; record_has_input = true }, false))
    else if c == line_feed
    then (
      record s {
        field = s.field ++ c ∷ [];
        line = s.line + 1;
        column = 1;
        record_has_input = true;
      },
      false,
    )
    else (record (advance 1 s) { field = s.field ++ c ∷ []; record_has_input = true }, false)

unfoldable pub refuse : String → CsvState → Parsed (CsvState × Bool)
refuse message s = refused (record { message = message; line = s.line; column = s.column })

unfoldable pub passes : ℕ → Option ℕ → Bool
passes c n = c == carriage_return && option_beq n (some line_feed)

unfoldable pub step_closed : CsvState → ℕ → Option ℕ → Parsed (CsvState × Bool)
step_closed s c n =
    if c == comma
    then parsed (advance 1 (push_field s), false)
    else if is_line_end c
    then parsed (end_line s, passes c n)
    else if not (c == 32) && not (c == 9)
    then refuse "Unexpected character after closing quote" s
    else parsed (advance 1 s, false)

unfoldable pub step_open : CsvState → ℕ → Option ℕ → Parsed (CsvState × Bool)
step_open s c n =
    if c == quote
    then (if ltb 0 (length s.field)
        then refuse "Unexpected quote in unquoted field" s
        else parsed (record (advance 1 s) { in_quotes = true; record_has_input = true }, false))
    else if c == comma
    then parsed (record (advance 1 (push_field s)) { record_has_input = true }, false)
    else if is_line_end c
    then parsed (end_line s, passes c n)
    else parsed (record (advance 1 s) { field = s.field ++ c ∷ []; record_has_input = true }, false)

unfoldable pub step_csv : CsvState → ℕ → Option ℕ → Parsed (CsvState × Bool)
step_csv s c n =
    if s.in_quotes
    then parsed (step_quoted s c n)
    else if s.after_quote
    then step_closed s c n
    else step_open s c n

-- The loop; a unit that is passed over changes nothing.
unfoldable pub parse_loop : Bool → CsvState → Text → Parsed CsvState
parse_loop passing s [] = parsed s
parse_loop true s (c ∷ cs) = parse_loop false s cs
parse_loop false s (c ∷ cs) = elim (step_csv s c (get_elem? cs 0)) [
  | refused e ↦ refused e
  | parsed (next, pass) ↦ parse_loop pass next cs
]

abbrev pub start_state : CsvState
start_state = record {
  records = [];
  row = [];
  field = [];
  in_quotes = false;
  after_quote = false;
  line = 1;
  column = 1;
  record_has_input = false;
}

unfoldable pub max_length : ℕ → List (List Text) → ℕ
max_length n [] = n
max_length n (r ∷ rs) = max_length (max n (length r)) rs

unfoldable pub make_document : List (List Text) → CsvDocument
make_document [] = record { headers = []; rows = []; column_count = 0 }
make_document (r ∷ rs) = record { headers = r; rows = rs; column_count = max_length (length r) rs }

-- What follows the loop.
unfoldable pub finish_csv : CsvState → Parsed CsvDocument
finish_csv s =
    if s.in_quotes
    then refused
        (record { message = "Unterminated quoted field"; line = s.line; column = s.column })
    else if s.record_has_input || ltb 0 (length s.field) || ltb 0 (length s.row)
    then parsed (make_document (push_record s).records)
    else parsed (make_document s.records)

unfoldable pub strip_mark : Text → Text
strip_mark [] = []
strip_mark (c ∷ cs) = if c == byte_order_mark then cs else c ∷ cs

unfoldable pub parse_csv : Text → Parsed CsvDocument
parse_csv source = elim (parse_loop false start_state (strip_mark source)) [
  | refused e ↦ refused e
  | parsed s ↦ finish_csv s
]
