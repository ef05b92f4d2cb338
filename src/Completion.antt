-- ===== src/Completion.antt =====
-- frontend/src/components/ide/sqlCompletion.ts: the tokens of the text before the cursor, on which the
-- automatic completion rests. A text is its list of UTF-16 code units.
pub mod Trigger
pub mod Reading
pub mod Nesting
pub mod Shut
pub mod Ranking
pub mod Merging
pub mod Source
pub mod Stale
use sqlwarden.Statements.Snippets.{index_of_text}
use sqlwarden.Statements.{Text, is_space, dash, newline, slash, star, quote, double_quote}
use sqlwarden.Common.{
  ℕ, List, Bool, leb, ◌∷◌, Option, ◌||◌, get_elem?, ◌==◌, includes, length, some, none, ◌&&◌,
  if◌then◌else◌, [], option_beq, ◌++◌, nat_eq, false, drop, suc, not, ◌+◌, is_some, ◌-◌, true, zero,
  find, take,
}

pub data TokenKind : Type 0 where
  word identifier number symbol value : TokenKind

pub record SqlTriggerToken : Type 0 where
  pub text : Text
  pub kind : TokenKind
  pub depth : ℕ

pub record SqlTriggerScan : Type 0 where
  pub tokens : List SqlTriggerToken
  pub protected_region : Bool

unfoldable pub is_digit_unit : ℕ → Bool
is_digit_unit u = leb 48 u && leb u 57

-- `[A-Za-z_]`.
unfoldable pub begins_word : ℕ → Bool
begins_word u = (leb 65 u && leb u 90) || (leb 97 u && leb u 122) || u == 95

-- `[A-Za-z0-9_$]`.
unfoldable pub continues_word : ℕ → Bool
continues_word u = begins_word u || is_digit_unit u || u == 36

-- `[0-9.eE+-]`.
unfoldable pub continues_number : ℕ → Bool
continues_number u = is_digit_unit u || includes (46 ∷ 101 ∷ 69 ∷ 43 ∷ 45 ∷ []) u

-- The units that a text begins with and that pass the test, and the rest.
unfoldable pub span_while : (ℕ → Bool) → Text → Text × Text
span_while p [] = ([], [])
span_while p (c ∷ cs) =
    let (taken, rest) = span_while p cs in if p c then (c ∷ taken, rest) else ([], c ∷ cs)

-- The text behind the first occurrence of another one.
unfoldable pub rest_after : Text → Text → Option Text
rest_after pattern_text text = elim (index_of_text text pattern_text) [
  | none ↦ none
  | some i ↦ some (drop (i + length pattern_text) text)
]

-- The text behind the closing unit; `doubles` says that two closing units stand for one inside, of which
-- `passing` says the second comes next.
unfoldable pub rest_after_quoted : ℕ → Bool → Bool → Text → Option Text
rest_after_quoted closing doubles passing [] = none
rest_after_quoted closing doubles true (c ∷ cs) = rest_after_quoted closing doubles false cs
rest_after_quoted closing doubles false (c ∷ cs) =
    let rest = rest_after_quoted closing doubles (c == closing) cs in
    if c == closing && not (doubles && option_beq (get_elem? cs 0) (some closing))
    then some cs
    else rest

-- The text between the dollars of `/^\$(?:[A-Za-z_][A-Za-z0-9_]*)?\$/`, where `$` was read.
unfoldable pub dollar_tag : Text → Option Text
dollar_tag cs =
    let (name, rest) = span_while (λ u. begins_word u || is_digit_unit u) cs in
    if option_beq (get_elem? rest 0) (some 36) && not (is_some (find is_digit_unit (take 1 name)))
    then some name
    else none

-- What a turn of the loop leaves: the tokens, the depth, and the text still to be read.
abbrev pub Turn : Type 0
Turn = List SqlTriggerToken × ℕ × Text

-- A token is pushed with the depth, if its text ends.
unfoldable pub push_token : List SqlTriggerToken → ℕ → Text → TokenKind → Option Text → Option Turn
push_token tokens depth text kind none = none
push_token tokens depth text kind (some rest) =
    some (tokens ++ record { text = text; kind = kind; depth = depth } ∷ [], depth, rest)

-- A comment ends, or not.
unfoldable pub pass_comment : List SqlTriggerToken → ℕ → Option Text → Option Turn
pass_comment tokens depth none = none
pass_comment tokens depth (some rest) = some (tokens, depth, rest)

unfoldable pub push_word : List SqlTriggerToken → ℕ → ℕ → Text × Text → TokenKind → Option Turn
push_word tokens depth c (taken, rest) kind = push_token tokens depth (c ∷ taken) kind (some rest)

-- The branches from that of words on.
unfoldable pub scan_plain : List SqlTriggerToken → ℕ → ℕ → Text → Option Turn
scan_plain tokens depth c cs =
    if begins_word c
    then push_word tokens depth c (span_while continues_word cs) word
    else if is_digit_unit c
    then push_word tokens depth c (span_while continues_number cs) number
    else if c == 59
    then some ([], 0, cs)
    else if c == 40
    then some (tokens ++ record { text = c ∷ []; kind = symbol; depth = depth } ∷ [], suc depth, cs)
    else if c == 41
    then push_token tokens (depth - 1) (c ∷ []) symbol (some cs)
    else push_token tokens depth (c ∷ []) symbol (some cs)

-- A dollar begins a literal if a tag follows.
unfoldable pub scan_dollar : List SqlTriggerToken → ℕ → ℕ → Text → Option Turn
scan_dollar tokens depth c cs = elim (dollar_tag cs) [
  | none ↦ scan_plain tokens depth c cs
  | some name ↦
      push_token tokens depth [] value
        (rest_after (36 ∷ name ++ 36 ∷ []) (drop (suc (length name)) cs))
]

-- One turn of the loop on a text that is not empty; `none` is a comment or a literal without an end.
unfoldable pub scan_turn : List SqlTriggerToken → ℕ → ℕ → Text → Option Turn
scan_turn tokens depth c cs =
    let next = get_elem? cs 0 in
    if is_space c
    then some (tokens, depth, cs)
    else if c == dash && option_beq next (some dash)
    then pass_comment tokens depth (rest_after (newline ∷ []) (drop 1 cs))
    else if c == slash && option_beq next (some star)
    then pass_comment tokens depth (rest_after (star ∷ slash ∷ []) (drop 1 cs))
    else if c == quote
    then push_token tokens depth [] value (rest_after_quoted quote true false cs)
    else if c == double_quote || c == 96
    then push_token tokens depth [] identifier (rest_after_quoted c true false cs)
    else if c == 91
    then push_token tokens depth [] identifier (rest_after_quoted 93 false false cs)
    else if c == 36
    then scan_dollar tokens depth c cs
    else scan_plain tokens depth c cs

-- The loop on fuel; `none` is out of fuel.
unfoldable pub scan_loop : ℕ → List SqlTriggerToken → ℕ → Text → Option SqlTriggerScan
scan_loop fuel tokens depth [] = some (record { tokens = tokens; protected_region = false })
scan_loop zero tokens depth (c ∷ cs) = none
scan_loop (suc fuel) tokens depth (c ∷ cs) = elim (scan_turn tokens depth c cs) [
  | none ↦ some (record { tokens = tokens; protected_region = true })
  | some (pushed, below, rest) ↦ scan_loop fuel pushed below rest
]

-- Each turn reads a unit, so the length of the text is enough fuel.
unfoldable pub scan_sql_trigger_prefix : Text → Option SqlTriggerScan
scan_sql_trigger_prefix source = scan_loop (length source) [] 0 source
