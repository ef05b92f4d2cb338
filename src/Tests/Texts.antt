-- ===== src/Tests/Texts.antt =====
-- Statements, units and cells.
use sqlwarden.Csv.RoundTrip.{print_records, parse_csv-print_records}
use sqlwarden.Csv.{parse_csv, parsed, make_document}
use sqlwarden.Statements.Kept.{ink_of_spans, sql_statement_spans-ink}
use sqlwarden.Values.Units.{
  duration_to_seconds, seconds_to_duration, DurationUnit, duration_unit_seconds,
  seconds_to_duration-exact,
}
use sqlwarden.Statements.{is_space, Text, sql_statement_spans}
use sqlwarden.Common.{[], ◌∷◌, ◌≡◌, ◌≤◌, ◌%◌, ℕ}

-- `a;'; ' `, where the second semicolon stands in a literal.
abbrev sample : Text
sample = 97 ∷ 59 ∷ 39 ∷ 59 ∷ 32 ∷ 39 ∷ 32 ∷ []

sql_statement_spans-ink_example :
    ink_of_spans sample (sql_statement_spans sample) ≡ 97 ∷ 59 ∷ 39 ∷ 59 ∷ 39 ∷ []
unfolding is_space
sql_statement_spans-ink_example = sql_statement_spans-ink sample

seconds_to_duration-exact_example :
    (duration_to_seconds (seconds_to_duration 7200).0 (seconds_to_duration 7200).1 ≡ 7200)
    × (◌≡◌ {A = ℕ} 7200 0 → seconds_to_duration 7200 ≡ (0, DurationUnit.seconds))
    × (1 ≤ 7200
        → (u : DurationUnit) → 7200 % duration_unit_seconds u ≡ 0
        → duration_unit_seconds u ≤ duration_unit_seconds (seconds_to_duration 7200).1)
seconds_to_duration-exact_example = seconds_to_duration-exact 7200

-- `"a","b""c"` and an empty field on the next line.
parse_csv-print_records_example :
    parse_csv (print_records (((97 ∷ []), (98 ∷ 34 ∷ 99 ∷ []) ∷ []) ∷ ([], []) ∷ []))
    ≡ parsed (make_document (((97 ∷ []) ∷ (98 ∷ 34 ∷ 99 ∷ []) ∷ []) ∷ ([] ∷ []) ∷ []))
parse_csv-print_records_example =
    parse_csv-print_records (((97 ∷ []), (98 ∷ 34 ∷ 99 ∷ []) ∷ []) ∷ ([], []) ∷ [])
