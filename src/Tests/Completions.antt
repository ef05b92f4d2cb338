-- ===== src/Tests/Completions.antt =====
-- The completion.
use sqlwarden.Statements.{Text}
use Prim.Native.Nat.{Ordering, compare}
use sqlwarden.Completion.Nesting.{Nests, scan_sql_trigger_prefix-Nests}
use sqlwarden.Completion.Trigger.{text_beq}
use sqlwarden.Completion.Ranking.{merge_key, CompletionItem, merge_ranked_completions}
use sqlwarden.Completion.Merging.{has_key, merge_ranked_completions-filter}
use sqlwarden.Completion.{word, SqlTriggerToken, SqlTriggerScan, scan_sql_trigger_prefix}
use sqlwarden.Completion.Source.{SourceState, begun, ended, is_stale, run_source, begin_remote}
use sqlwarden.Completion.Stale.{is_stale-superseded}
use sqlwarden.Common.{ℕ, ◌∷◌, filter, ◌≡◌, none, some, length, [], false, true, refl, ◌++◌}

-- `SELECT f(a,`.
abbrev call : Text
call = 83 ∷ 69 ∷ 76 ∷ 69 ∷ 67 ∷ 84 ∷ 32 ∷ 102 ∷ 40 ∷ 97 ∷ 44 ∷ []

abbrev unchanged : Text → Text
unchanged text = text

scan_sql_trigger_prefix-Nests_example :
    (scan : SqlTriggerScan) × (scan_sql_trigger_prefix call ≡ some scan)
    × ((e : ℕ) × Nests 0 scan.tokens e)
scan_sql_trigger_prefix-Nests_example = scan_sql_trigger_prefix-Nests call

-- `SELECT 'a,`: the string is not closed before the cursor.
abbrev select_word : Text
select_word = 83 ∷ 69 ∷ 76 ∷ 69 ∷ 67 ∷ 84 ∷ []

abbrev open_string : Text
open_string = 39 ∷ 97 ∷ 44 ∷ []

abbrev in_string : Text
in_string = select_word ++ 32 ∷ open_string

abbrev select_token : SqlTriggerToken
select_token = record { text = select_word; kind = word; depth = 0 }

abbrev item_of : Text → ℕ → CompletionItem
item_of label boost = record {
  label = label;
  display_label = none;
  item_type = some (107 ∷ []);
  detail = none;
  apply = label;
  boost = some boost;
}

abbrev length_order : Text → Text → Ordering
length_order a b = compare (length a) (length b)

-- Both lists have `a`, and only the second one `ab`.
merge_ranked_completions-filter_example :
    filter (has_key unchanged (97 ∷ 0 ∷ 107 ∷ [])) (
      merge_ranked_completions unchanged length_order
        (item_of (97 ∷ []) 3 ∷ [])
        (item_of (97 ∷ 98 ∷ []) 5 ∷ item_of (97 ∷ []) 9 ∷ []))
    ≡ item_of (97 ∷ []) 3 ∷ []
unfolding text_beq merge_key
merge_ranked_completions-filter_example =
    merge_ranked_completions-filter unchanged length_order (item_of (97 ∷ []) 3 ∷ [])
      (item_of (97 ∷ 98 ∷ []) 5 ∷ item_of (97 ∷ []) 9 ∷ []) (97 ∷ 0 ∷ 107 ∷ [])

abbrev idle : SourceState
idle = record { active_remote_controller = some 1; remote_generation = 4; aborted = 0 ∷ [] }

-- While the request 2 is under way, the one before it ends and the request 3 begins.
is_stale-superseded_example :
    is_stale (run_source (begin_remote idle 2) (ended 1 ∷ begun 3 ∷ [])) false 2 5 ≡ true
is_stale-superseded_example = is_stale-superseded idle 2 (ended 1 ∷ begun 3 ∷ []) false refl refl
