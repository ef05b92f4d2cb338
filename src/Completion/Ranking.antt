-- ===== src/Completion/Ranking.antt =====
-- frontend/src/components/ide/sqlCompletion.ts: how well a suggestion matches what was typed, and merging
-- two lists of completions. A text is here its list of code points, `lower` stands for
-- `toLocaleLowerCase`, `is_part` for the class of letters and numbers, and `label_order` for
-- `localeCompare`, by its sign.
use sqlwarden.Statements.Snippets.{begins_with, index_of_text}
use sqlwarden.Statements.{Text}
use Prim.Native.Nat.{Ordering}
use sqlwarden.Completion.Trigger.{text_beq}
use sqlwarden.Common.{
  ℕ, if◌then◌else◌, List, Bool, ◌∷◌, get_or_else, some, Option, [], is_some, ◌++◌, ◌*◌, ◌==◌, false,
  length, true, ◌+◌, nat_eq, map, ◌||◌, find, ltb, filter, none,
}

pub record SqlCompletionSuggestion : Type 0 where
  pub label : Text
  pub display_label : Option Text
  pub kind : Text
  pub detail : Option Text
  pub insert_text : Option Text
  pub replace_start : ℕ
  pub replace_end : ℕ
  pub score : Option ℕ

pub record CompletionItem : Type 0 where
  pub label : Text
  pub display_label : Option Text
  pub item_type : Option Text
  pub detail : Option Text
  pub apply : Text
  pub boost : Option ℕ

abbrev pub match_tier_boost : ℕ
match_tier_boost = 1000

-- `text.split(/[^\p{L}\p{N}]+/u)`; between two separators there is an empty segment, which begins with
-- no prefix that is not empty.
unfoldable pub segments : (ℕ → Bool) → Text → List Text
segments is_part [] = [] ∷ []
segments is_part (c ∷ cs) = elim (segments is_part cs) [
  | [] ↦ []
  | s ∷ ss ↦ if is_part c then (c ∷ s) ∷ ss else [] ∷ s ∷ ss
]

-- What is left of the prefix after a character of the label.
unfoldable pub advance : ℕ → Text → Text
advance c [] = []
advance c (p ∷ prefix) = if c == p then prefix else p ∷ prefix

-- The last loop: whether the characters of the prefix stand in the label in their order.
unfoldable pub stands_in_order : Text → Text → Bool
stands_in_order [] prefix = false
stands_in_order (c ∷ label) prefix =
    let rest = advance c prefix in length rest == 0 || stands_in_order label rest

unfoldable pub completion_match_tier : (Text → Text) → (ℕ → Bool) → Text → Text → ℕ
completion_match_tier lower is_part label prefix =
    let folded_label = lower label in
    let folded_prefix = lower prefix in
    if length folded_prefix == 0
    then 0
    else if text_beq folded_label folded_prefix
    then 5
    else if begins_with folded_label folded_prefix
    then 4
    else if is_some (find (λ s. begins_with s folded_prefix) (segments is_part folded_label))
    then 3
    else if is_some (index_of_text folded_label folded_prefix)
    then 2
    else if ltb (length folded_prefix) 3
    then 0
    else if stands_in_order folded_label folded_prefix
    then 1
    else 0

-- The keys of the sorts: the number that comes first, the higher the earlier, and the label.
abbrev pub SortKey : Type 0
SortKey = List ℕ × Text

-- Whether the first comes after the second: `<` and `>` of the comparison are `lt` and `gt`.
unfoldable pub comes_after : (Text → Text → Ordering) → SortKey → SortKey → Bool
comes_after label_order ([], label) ([], other) = elim (label_order label other) [
  | Ordering.gt ↦ true
  | _ ↦ false
]
comes_after label_order ([], label) (m ∷ ms, other) = false
comes_after label_order (n ∷ ns, label) ([], other) = false
comes_after label_order (n ∷ ns, label) (m ∷ ms, other) =
    let rest = comes_after label_order (ns, label) (ms, other) in if n == m then rest else ltb n m

-- `sort`, which is stable.
module _ {ℓ} {A : Type ℓ} (label_order : Text → Text → Ordering) (key : A → SortKey) where
  unfoldable pub place : A → List A → List A
  place x [] = x ∷ []
  place x (y ∷ ys) =
      let rest = place x ys in
      if comes_after label_order (key x) (key y) then y ∷ rest else x ∷ y ∷ ys

  unfoldable pub sorted : List A → List A
  sorted [] = []
  sorted (x ∷ xs) = place x (sorted xs)

unfoldable pub rank_key : ℕ × SqlCompletionSuggestion → SortKey
rank_key (tier, suggestion) = (tier ∷ get_or_else suggestion.score 0 ∷ [], suggestion.label)

unfoldable pub boosted : ℕ × SqlCompletionSuggestion → SqlCompletionSuggestion
boosted (tier, suggestion) = record suggestion {
  score = some (tier * match_tier_boost + get_or_else suggestion.score 0);
}

unfoldable pub rank_suggestions :
    (Text → Text)
    → (ℕ → Bool)
    → (Text → Text → Ordering)
    → List SqlCompletionSuggestion
    → Text
    → List SqlCompletionSuggestion
rank_suggestions lower is_part label_order suggestions prefix =
    if length prefix == 0
    then suggestions
    else map boosted (
        sorted label_order rank_key (
          filter (λ ranked. ltb 0 ranked.0)
            (map (λ s. (completion_match_tier lower is_part s.label prefix, s)) suggestions)))

-- `insert_text || label`.
unfoldable pub insert_text_or : Option Text → Text → Text
insert_text_or none label = label
insert_text_or (some []) label = label
insert_text_or (some (c ∷ cs)) label = c ∷ cs

unfoldable pub suggestion_to_completion : SqlCompletionSuggestion → CompletionItem
suggestion_to_completion suggestion = record {
  label = suggestion.label;
  display_label = suggestion.display_label;
  item_type = some suggestion.kind;
  detail = suggestion.detail;
  apply = insert_text_or suggestion.insert_text suggestion.label;
  boost = suggestion.score;
}

-- The label in lower case, a zero, and the type.
unfoldable pub merge_key : (Text → Text) → CompletionItem → Text
merge_key lower item = lower item.label ++ 0 ∷ get_or_else item.item_type []

-- The first loop: the values of the map, in the order they were set.
unfoldable pub collect :
    (Text → Text) → List CompletionItem → List CompletionItem → List CompletionItem
collect lower merged [] = merged
collect lower merged (item ∷ items) =
    collect lower
      (if is_some (find (λ m. text_beq (merge_key lower m) (merge_key lower item)) merged)
        then merged
        else merged ++ item ∷ [])
      items

unfoldable pub boost_key : CompletionItem → SortKey
boost_key item = (get_or_else item.boost 0 ∷ [], item.label)

unfoldable pub merge_ranked_completions :
    (Text → Text)
    → (Text → Text → Ordering)
    → List CompletionItem
    → List CompletionItem
    → List CompletionItem
merge_ranked_completions lower label_order primary secondary =
    sorted label_order boost_key (collect lower [] (primary ++ secondary))
