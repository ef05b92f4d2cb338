-- ===== src/Completion/Trigger.antt =====
-- frontend/src/components/ide/sqlCompletion.ts: after which unit the completion opens by itself. `upper`
-- stands for `toLocaleUpperCase`, and `none` is a scan that ran out of fuel.
use sqlwarden.Statements.{Text}
use sqlwarden.Completion.{SqlTriggerToken, SqlTriggerScan, is_space, scan_sql_trigger_prefix}
use sqlwarden.Completion.{word, identifier}
use sqlwarden.Common.{
  if◌then◌else◌, ℕ, List, ◌∷◌, Option, Bool, [], is_some, ◌==◌, get_last?, ltb, false, find, filter,
  length, true, none, ◌&&◌, ◌||◌, take, get_elem?, some, ◌-◌, nat_eq, not, includes,
}

unfoldable pub text_beq : Text → Text → Bool
text_beq [] [] = true
text_beq [] (d ∷ ds) = false
text_beq (c ∷ cs) [] = false
text_beq (c ∷ cs) (d ∷ ds) = if c == d then text_beq cs ds else false

unfoldable pub is_one_of : List Text → Text → Bool
is_one_of [] text = false
is_one_of (t ∷ ts) text = text_beq t text || is_one_of ts text

-- `SELECT`, `DISTINCT`, `FROM`, `JOIN`, `UPDATE`, `INTO`, `USING`, `LATERAL`, `WHERE`,
-- `ON`, `HAVING`, `SET`, `RETURNING`, `AND`, `OR`, `WHEN`, `THEN`, `ELSE`.
abbrev pub semantic_space_keywords : List Text
semantic_space_keywords =
    (83 ∷ 69 ∷ 76 ∷ 69 ∷ 67 ∷ 84 ∷ [])
    ∷ (68 ∷ 73 ∷ 83 ∷ 84 ∷ 73 ∷ 78 ∷ 67 ∷ 84 ∷ [])
    ∷ (70 ∷ 82 ∷ 79 ∷ 77 ∷ [])
    ∷ (74 ∷ 79 ∷ 73 ∷ 78 ∷ [])
    ∷ (85 ∷ 80 ∷ 68 ∷ 65 ∷ 84 ∷ 69 ∷ [])
    ∷ (73 ∷ 78 ∷ 84 ∷ 79 ∷ [])
    ∷ (85 ∷ 83 ∷ 73 ∷ 78 ∷ 71 ∷ [])
    ∷ (76 ∷ 65 ∷ 84 ∷ 69 ∷ 82 ∷ 65 ∷ 76 ∷ [])
    ∷ (87 ∷ 72 ∷ 69 ∷ 82 ∷ 69 ∷ [])
    ∷ (79 ∷ 78 ∷ [])
    ∷ (72 ∷ 65 ∷ 86 ∷ 73 ∷ 78 ∷ 71 ∷ [])
    ∷ (83 ∷ 69 ∷ 84 ∷ [])
    ∷ (82 ∷ 69 ∷ 84 ∷ 85 ∷ 82 ∷ 78 ∷ 73 ∷ 78 ∷ 71 ∷ [])
    ∷ (65 ∷ 78 ∷ 68 ∷ [])
    ∷ (79 ∷ 82 ∷ [])
    ∷ (87 ∷ 72 ∷ 69 ∷ 78 ∷ [])
    ∷ (84 ∷ 72 ∷ 69 ∷ 78 ∷ [])
    ∷ (69 ∷ 76 ∷ 83 ∷ 69 ∷ [])
    ∷ []

-- `SELECT`, `INSERT`, `UPDATE`, `DELETE`.
abbrev pub dml_keywords : List Text
dml_keywords =
    (83 ∷ 69 ∷ 76 ∷ 69 ∷ 67 ∷ 84 ∷ [])
    ∷ (73 ∷ 78 ∷ 83 ∷ 69 ∷ 82 ∷ 84 ∷ [])
    ∷ (85 ∷ 80 ∷ 68 ∷ 65 ∷ 84 ∷ 69 ∷ [])
    ∷ (68 ∷ 69 ∷ 76 ∷ 69 ∷ 84 ∷ 69 ∷ [])
    ∷ []

-- `GROUP`, `ORDER`, `PARTITION`.
abbrev pub by_clauses : List Text
by_clauses =
    (71 ∷ 82 ∷ 79 ∷ 85 ∷ 80 ∷ [])
    ∷ (79 ∷ 82 ∷ 68 ∷ 69 ∷ 82 ∷ [])
    ∷ (80 ∷ 65 ∷ 82 ∷ 84 ∷ 73 ∷ 84 ∷ 73 ∷ 79 ∷ 78 ∷ [])
    ∷ []

abbrev pub by_keyword : Text
by_keyword = 66 ∷ 89 ∷ []

unfoldable pub is_word : SqlTriggerToken → Bool
is_word token = elim token.kind [ word ↦ true | _ ↦ false ]

-- A word or a quoted identifier.
unfoldable pub is_owner : SqlTriggerToken → Bool
is_owner token = elim token.kind [ word ↦ true | identifier ↦ true | _ ↦ false ]

-- The last word among the first `before` tokens.
unfoldable pub previous_word : List SqlTriggerToken → ℕ → Option SqlTriggerToken
previous_word tokens before = get_last? (filter is_word (take before tokens))

unfoldable pub has_dml_context : (Text → Text) → List SqlTriggerToken → Bool
has_dml_context upper tokens =
    is_some (find (λ token. is_word token && is_one_of dml_keywords (upper token.text)) tokens)

-- The owner is the token before the last one.
unfoldable pub follows_owner : List SqlTriggerToken → Bool
follows_owner tokens =
    ltb 1 (length tokens)
    && elim (get_elem? tokens (length tokens - 2)) [ none ↦ false | some owner ↦ is_owner owner ]

-- A space after a word; the last word is an object of its own, so its last index is that of the end.
unfoldable pub completes_after_space : (Text → Text) → List SqlTriggerToken → SqlTriggerToken → Bool
completes_after_space upper tokens last =
    if not (is_word last)
    then false
    else if text_beq (upper last.text) by_keyword
    then elim (previous_word tokens (length tokens - 1)) [
      | none ↦ false
      | some clause ↦ is_one_of by_clauses (upper clause.text)
    ]
    else is_one_of semantic_space_keywords (upper last.text)

-- The tests on the tokens, by the unit before the cursor.
unfoldable pub completes_after : (Text → Text) → ℕ → List SqlTriggerToken → SqlTriggerToken → Bool
completes_after upper trigger tokens last =
    if trigger == 46
    then text_beq last.text (46 ∷ []) && follows_owner tokens
    else if trigger == 32
    then completes_after_space upper tokens last
    else if not (has_dml_context upper tokens)
    then false
    else if trigger == 44
    then text_beq last.text (44 ∷ [])
    else if trigger == 40
    then text_beq last.text (40 ∷ []) && follows_owner tokens
    else false

unfoldable pub trigger_in_scan : (Text → Text) → ℕ → SqlTriggerScan → Option ℕ
trigger_in_scan upper trigger scan = elim (get_last? scan.tokens) [
  | none ↦ none
  | some last ↦
      if not scan.protected_region && completes_after upper trigger scan.tokens last
      then some trigger
      else none
]

-- A space after a space, or at the start, opens nothing.
unfoldable pub is_lone_space : Text → ℕ → ℕ → Bool
is_lone_space source cursor trigger =
    trigger == 32
    && (ltb cursor 2 || elim (get_elem? source (cursor - 2)) [ none ↦ false | some u ↦ is_space u ])

-- The outer result is that of the scan, the inner one the code's.
unfoldable pub automatic_sql_completion_trigger : (Text → Text) → Text → ℕ → Option (Option ℕ)
automatic_sql_completion_trigger upper source cursor =
    if cursor == 0 || ltb (length source) cursor
    then some none
    else elim (get_elem? source (cursor - 1)) [
      | none ↦ some none
      | some trigger ↦
          if not (includes (46 ∷ 32 ∷ 44 ∷ 40 ∷ []) trigger)
          then some none
          else if is_lone_space source cursor trigger
          then some none
          else elim (scan_sql_trigger_prefix (take cursor source)) [
            | none ↦ none
            | some scan ↦ some (trigger_in_scan upper trigger scan)
          ]
    ]

unfoldable pub has_semantic_identifier_context : (Text → Text) → Text → ℕ → Text → Option Bool
has_semantic_identifier_context upper source cursor prefix =
    if ltb (length prefix) 2
    then some false
    else elim (scan_sql_trigger_prefix (take cursor source)) [
      | none ↦ none
      | some scan ↦ some (not scan.protected_region && has_dml_context upper scan.tokens)
    ]
