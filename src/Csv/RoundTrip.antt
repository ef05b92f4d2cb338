-- ===== src/Csv/RoundTrip.antt =====
-- Printing records with every field in quotes and parsing the text gives the records back.
use sqlwarden.Common.{
  if◌then◌else◌, [], ◌∷◌, List, ℕ, ◌++◌, true, ◌==◌, false, ◌≡◌, nat_eq, ◌+◌, ◌∙◌, refl, ap, sym,
  append-nil, Bool-cases, inl, arith, append_assoc, inr, Bool, map,
}
use sqlwarden.Csv.{
  refused, Text, CsvState, parse_loop, step_csv, step_quoted, quote, comma, line_feed, advance,
  strip_mark, parse_csv, parsed, step_open, step_closed, finish_csv, end_line, make_document,
  push_record, start_state, Parsed, push_field, CsvDocument, is_line_end, passes,
}

-- A field with its quotes doubled.
abbrev pub escape : Text → Text
escape [] = []
escape (c ∷ cs) = if c == quote then quote ∷ quote ∷ escape cs else c ∷ escape cs

-- The fields of a record, each in quotes, with commas between and a line feed after.
abbrev pub print_fields : Text → List Text → Text → Text
print_fields f [] rest = quote ∷ escape f ++ quote ∷ line_feed ∷ rest
print_fields f (g ∷ gs) rest = quote ∷ escape f ++ quote ∷ comma ∷ print_fields g gs rest

-- A record that is not empty is its first field and the others.
abbrev pub print_records : List (Text × List Text) → Text
print_records [] = []
print_records ((f, fs) ∷ rs) = print_fields f fs (print_records rs)

abbrev Quoted : CsvState → Text → ℕ → ℕ → CsvState
Quoted s f line column = record s {
  field = f;
  in_quotes = true;
  after_quote = false;
  line = line;
  column = column;
  record_has_input = true;
}

abbrev Closed : CsvState → Text → ℕ → ℕ → CsvState
Closed s f line column = record s {
  field = f;
  in_quotes = false;
  after_quote = true;
  line = line;
  column = column;
  record_has_input = true;
}

escape-quote :
    (c : ℕ) (cs : Text) → (c == quote) ≡ true → escape (c ∷ cs) ≡ quote ∷ quote ∷ escape cs
escape-quote c cs q = rw (q) refl

escape_other : (c : ℕ) (cs : Text) → (c == quote) ≡ false → escape (c ∷ cs) ≡ c ∷ escape cs
escape_other c cs q = rw (q) refl

close_quote :
    (s : CsvState) (f : Text) (line column d : ℕ) (rest : Text)
    → (d == quote) ≡ false
    → parse_loop false (Quoted s f line column) (quote ∷ d ∷ rest)
      ≡ parse_loop false (Closed s f line column) (d ∷ rest)
unfolding parse_loop step_csv step_quoted advance
close_quote s f line column d rest h = rw (parse_loop, step_csv, step_quoted, h) refl

quoted_line :
    (s : CsvState) (f : Text) (line column c : ℕ) (rest : Text)
    → (c == quote) ≡ false
    → (c == line_feed) ≡ true
    → parse_loop false (Quoted s f line column) (c ∷ rest)
      ≡ parse_loop false (Quoted s (f ++ c ∷ []) (line + 1) 1) rest
unfolding parse_loop step_csv step_quoted advance
quoted_line s f line column c rest q w = rw (parse_loop, step_csv, step_quoted, q, w) refl

quoted_unit :
    (s : CsvState) (f : Text) (line column c : ℕ) (rest : Text)
    → (c == quote) ≡ false
    → (c == line_feed) ≡ false
    → parse_loop false (Quoted s f line column) (c ∷ rest)
      ≡ parse_loop false (Quoted s (f ++ c ∷ []) line (column + 1)) rest
unfolding parse_loop step_csv step_quoted advance
quoted_unit s f line column c rest q w = rw (parse_loop, step_csv, step_quoted, q, w) refl

-- Inside quotes, up to the closing one, which a comma or a line feed follows.
parse_loop-escape :
    (s : CsvState) (t f : Text) (line column d : ℕ) (rest : Text)
    → (d == quote) ≡ false
    → (l k : ℕ) × (parse_loop false (Quoted s f line column) (escape t ++ quote ∷ d ∷ rest)
        ≡ parse_loop false (Closed s (f ++ t) l k) (d ∷ rest))
unfolding parse_loop step_csv step_quoted advance
parse_loop-escape s [] f line column d rest h = (
  line,
  column,
  close_quote s f line column d rest h
      ∙ ap (λ g. parse_loop false (Closed s g line column) (d ∷ rest)) (sym (append-nil f)),
)
parse_loop-escape s (c ∷ cs) f line column d rest h = elim (Bool-cases (c == quote)) [
  | inl q ↦
      let (l, k, e) = parse_loop-escape s cs (f ++ quote ∷ []) line (column + 2) d rest h in
      let same : quote ≡ c = ground arith in
      (
        l,
        k,
        ap (λ t. parse_loop false (Quoted s f line column) (t ++ quote ∷ d ∷ rest))
              (escape-quote c cs q)
            ∙ e
            ∙ ap (λ g. parse_loop false (Closed s g l k) (d ∷ rest))
                (append_assoc f (quote ∷ []) cs ∙ ap (λ u. f ++ u ∷ cs) same),
      )
  | inr q ↦ elim (Bool-cases (c == line_feed)) [
    | inl w ↦
        let (l, k, e) = parse_loop-escape s cs (f ++ c ∷ []) (line + 1) 1 d rest h in
        (
          l,
          k,
          ap (λ t. parse_loop false (Quoted s f line column) (t ++ quote ∷ d ∷ rest))
                (escape_other c cs q)
              ∙ quoted_line s f line column c (escape cs ++ quote ∷ d ∷ rest) q w
              ∙ e
              ∙ ap (λ g. parse_loop false (Closed s g l k) (d ∷ rest)) (append_assoc f (c ∷ []) cs),
        )
    | inr w ↦
        let (l, k, e) = parse_loop-escape s cs (f ++ c ∷ []) line (column + 1) d rest h in
        (
          l,
          k,
          ap (λ t. parse_loop false (Quoted s f line column) (t ++ quote ∷ d ∷ rest))
                (escape_other c cs q)
              ∙ quoted_unit s f line column c (escape cs ++ quote ∷ d ∷ rest) q w
              ∙ e
              ∙ ap (λ g. parse_loop false (Closed s g l k) (d ∷ rest)) (append_assoc f (c ∷ []) cs),
        )
  ]
]

-- Between two fields or records.
abbrev Fresh : List (List Text) → List Text → ℕ → ℕ → Bool → CsvState
Fresh records row line column has_input = record {
  records = records;
  row = row;
  field = [];
  in_quotes = false;
  after_quote = false;
  line = line;
  column = column;
  record_has_input = has_input;
}

parse_loop-fields :
    (records : List (List Text)) (row : List Text) (f : Text) (fs : List Text) (line column : ℕ)
    (has_input : Bool) (rest : Text)
    → (l k : ℕ) × (parse_loop false
          (Fresh records row line column has_input)
          (print_fields f fs rest)
        ≡ parse_loop false (Fresh (records ++ (row ++ f ∷ fs) ∷ []) [] l k false) rest)
unfolding parse_loop step_csv step_open step_closed advance end_line push_record push_field
    is_line_end passes
parse_loop-fields records row f [] line column has_input rest =
    let s = Fresh records row line column has_input in
    let (l, k, e) = parse_loop-escape s f [] line (column + 1) line_feed rest refl in (l + 1, 1, e)
parse_loop-fields records row f (g ∷ gs) line column has_input rest =
    let s = Fresh records row line column has_input in
    let (l, k, e) =
      parse_loop-escape s f [] line (column + 1) comma (print_fields g gs rest) refl in
    let (l', k', e') = parse_loop-fields records (row ++ f ∷ []) g gs l (k + 1) true rest in
    (
      l',
      k',
      e
          ∙ e'
          ∙ ap (λ r. parse_loop false (Fresh (records ++ r ∷ []) [] l' k' false) rest)
              (append_assoc row (f ∷ []) (g ∷ gs)),
    )

parse_loop-records :
    (records : List (List Text)) (xs : List (Text × List Text)) (line column : ℕ)
    → (l k : ℕ) × (parse_loop false (Fresh records [] line column false) (print_records xs)
        ≡ parsed (Fresh (records ++ map (λ x. x.0 ∷ x.1) xs) [] l k false))
unfolding parse_loop
parse_loop-records records [] line column =
    (line, column, ap (λ r. parsed (Fresh r [] line column false)) (sym (append-nil records)))
parse_loop-records records ((f, fs) ∷ xs) line column =
    let (l, k, e) = parse_loop-fields records [] f fs line column false (print_records xs) in
    let (l', k', e') = parse_loop-records (records ++ (f ∷ fs) ∷ []) xs l k in
    (
      l',
      k',
      e
          ∙ e'
          ∙ ap (λ r. parsed (Fresh r [] l' k' false))
              (append_assoc records ((f ∷ fs) ∷ []) (map (λ x. x.0 ∷ x.1) xs)),
    )

strip_mark-print_records :
    (xs : List (Text × List Text)) → strip_mark (print_records xs) ≡ print_records xs
unfolding strip_mark
strip_mark-print_records [] = refl
strip_mark-print_records ((f, []) ∷ xs) = refl
strip_mark-print_records ((f, g ∷ gs) ∷ xs) = refl

-- Records that each have a field, printed with every field in quotes and its quotes doubled, are parsed
-- to the document with the first as its headers and the others as its rows, whatever the fields hold:
-- commas, quotes, and line ends included.
pub parse_csv-print_records :
    (xs : List (Text × List Text))
    → parse_csv (print_records xs) ≡ parsed (make_document (map (λ x. x.0 ∷ x.1) xs))
unfolding parse_csv finish_csv
parse_csv-print_records xs =
    let (l, k, e) = parse_loop-records [] xs 1 1 in
    ap
      (λ t. elim (parse_loop false start_state t) as (λ _. Parsed CsvDocument) [
        | refused c ↦ refused c
        | parsed s ↦ finish_csv s
      ])
      (strip_mark-print_records xs)
    ∙ ap
        (λ p. elim p as (λ _. Parsed CsvDocument) [
          | refused c ↦ refused c
          | parsed s ↦ finish_csv s
        ])
        e
