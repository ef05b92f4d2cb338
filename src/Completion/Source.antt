-- ===== src/Completion/Source.antt =====
-- frontend/src/components/ide/sqlCompletion.ts: the source of completions, with the requests that it has
-- under way. `vocabulary` is what loading it gave, `none` if it failed, and `fallback` what the keywords
-- of the dialect give.
use Prim.Native.Nat.{Ordering, suc, min}
use sqlwarden.Statements.{Text}
use sqlwarden.Completion.Trigger.{automatic_sql_completion_trigger, has_semantic_identifier_context}
use sqlwarden.Completion.Ranking.{
  CompletionItem, SqlCompletionSuggestion, rank_suggestions, suggestion_to_completion,
  merge_ranked_completions,
}
use sqlwarden.Common.{
  ℕ, if◌then◌else◌, Bool, none, Option, ◌∷◌, some, option_beq, List, leb, map, ◌&&◌, length, nat_eq,
  [], ◌||◌, filter, includes, is_some, ltb, ◌==◌, not,
}

pub data ValidFor : Type 0 where
  identifier_pattern : ValidFor
  exact_prefix : Text → ValidFor

pub record CompletionResult : Type 0 where
  pub start : ℕ
  pub stop : ℕ
  pub options : List CompletionItem
  pub valid_for : ValidFor

-- What is asked: the text, the cursor, and the word before it with its start.
pub record CompletionContext : Type 0 where
  pub source : Text
  pub pos : ℕ
  pub explicit : Bool
  pub word : Option (ℕ × Text)

-- The variables of the source: the controller of the last request, how many there were, and the
-- controllers that were aborted.
pub record SourceState : Type 0 where
  pub active_remote_controller : Option ℕ
  pub remote_generation : ℕ
  pub aborted : List ℕ

unfoldable pub prefix_of : CompletionContext → Text
prefix_of context = elim context.word [ none ↦ [] | some (start, text) ↦ text ]

-- `word?.from ?? context.pos`.
unfoldable pub word_start : CompletionContext → ℕ
word_start context = elim context.word [ none ↦ context.pos | some (start, text) ↦ start ]

unfoldable pub should_complete_lexically : CompletionContext → Bool
should_complete_lexically context =
    leb 2 (length (prefix_of context)) || (context.explicit && ltb 0 (length (prefix_of context)))

-- `none` is a scan that ran out of fuel.
unfoldable pub should_complete_remotely : (Text → Text) → Bool → CompletionContext → Option Bool
should_complete_remotely upper has_remote context =
    elim (automatic_sql_completion_trigger upper context.source context.pos) [
      | none ↦ none
      | some trigger ↦
          elim (has_semantic_identifier_context upper context.source context.pos
            (prefix_of context)) [
              | none ↦ none
              | some semantic ↦
                  some (has_remote && (context.explicit || is_some trigger || semantic))
            ]
    ]

unfoldable pub options_of : Option CompletionResult → List CompletionItem
options_of none = []
options_of (some result) = result.options

-- A request begins: the one before it is aborted.
unfoldable pub begin_remote : SourceState → ℕ → SourceState
begin_remote s controller = record {
  active_remote_controller = some controller;
  remote_generation = suc s.remote_generation;
  aborted = elim s.active_remote_controller [ none ↦ s.aborted | some before ↦ before ∷ s.aborted ];
}

-- The context of a request is aborted.
unfoldable pub abort_remote : SourceState → ℕ → SourceState
abort_remote s controller = record s { aborted = controller ∷ s.aborted }

-- `finally`.
unfoldable pub end_remote : SourceState → ℕ → SourceState
end_remote s controller =
    if option_beq s.active_remote_controller (some controller)
    then record s { active_remote_controller = none }
    else s

-- Whether the answer to a request comes too late.
unfoldable pub is_stale : SourceState → Bool → ℕ → ℕ → Bool
is_stale s context_aborted controller generation =
    context_aborted || includes s.aborted controller || not (generation == s.remote_generation)

-- The functions that depend on a locale or on Unicode.
pub record Locale : Type 0 where
  pub lower : Text → Text
  pub is_part : ℕ → Bool
  pub label_order : Text → Text → Ordering

module _ (locale : Locale) where
  unfoldable pub ranked_completions : List SqlCompletionSuggestion → Text → List CompletionItem
  ranked_completions suggestions prefix =
      map suggestion_to_completion
        (rank_suggestions locale.lower locale.is_part locale.label_order suggestions prefix)

  unfoldable pub lexical_completions :
      CompletionContext
      → Option (List SqlCompletionSuggestion)
      → Option CompletionResult
      → List CompletionItem
  lexical_completions context vocabulary fallback =
      if should_complete_lexically context
      then elim vocabulary [
        | none ↦ options_of fallback
        | some [] ↦ options_of fallback
        | some (s ∷ ss) ↦ ranked_completions (s ∷ ss) (locale.lower (prefix_of context))
      ]
      else []

  -- What is shown where no more than the words are known.
  unfoldable pub lexical_result : CompletionContext → List CompletionItem → CompletionResult
  lexical_result context lexical = record {
    start = word_start context;
    stop = context.pos;
    options = lexical;
    valid_for = identifier_pattern;
  }

  -- Without a request.
  unfoldable pub answer_locally : CompletionContext → List CompletionItem → Option CompletionResult
  answer_locally context lexical =
      if length lexical == 0 then none else some (lexical_result context lexical)

  unfoldable pub remote_start : CompletionContext → List SqlCompletionSuggestion → ℕ
  remote_start context [] = word_start context
  remote_start context (s ∷ ss) = s.replace_start

  unfoldable pub remote_options :
      CompletionContext → List CompletionItem → List SqlCompletionSuggestion → List CompletionItem
  remote_options context lexical suggestions =
      let prefix = prefix_of context in
      let start = remote_start context suggestions in
      let semantic =
        ranked_completions (filter (λ s. s.replace_start == start) suggestions) prefix in
      if length semantic == 0
      then lexical
      else if length prefix == 0
      then semantic
      else merge_ranked_completions locale.lower locale.label_order semantic lexical

  -- The answer to a request: the suggestions, or `none` if it failed.
  unfoldable pub answer_remote :
      SourceState
      → CompletionContext
      → Bool
      → ℕ
      → ℕ
      → List CompletionItem
      → Option CompletionResult
      → Option (List SqlCompletionSuggestion)
      → Option CompletionResult
  answer_remote s context context_aborted controller generation lexical fallback outcome =
      if is_stale s context_aborted controller generation then none else elim outcome [
        | none ↦ if length lexical == 0 then fallback else some (lexical_result context lexical)
        | some suggestions ↦
            let options = remote_options context lexical suggestions in
            if length options == 0
            then none
            else some (record {
              start = min (remote_start context suggestions) context.pos;
              stop = context.pos;
              options = options;
              valid_for = exact_prefix (prefix_of context);
            })
      ]

-- What happens to the requests: one begins, the context of one is aborted, or one ends.
pub data SourceEvent : Type 0 where
  begun : ℕ → SourceEvent
  given_up : ℕ → SourceEvent
  ended : ℕ → SourceEvent

unfoldable pub step_source : SourceState → SourceEvent → SourceState
step_source s (begun controller) = begin_remote s controller
step_source s (given_up controller) = abort_remote s controller
step_source s (ended controller) = end_remote s controller

unfoldable pub run_source : SourceState → List SourceEvent → SourceState
run_source s [] = s
run_source s (event ∷ events) = run_source (step_source s event) events
