-- ===== src/Completion/Shut.antt =====
-- frontend/src/components/ide/sqlCompletion.ts: within a comment or a quoted text the completion does not
-- open by itself.
use sqlwarden.Completion.{SqlTriggerToken, scan_turn}
use sqlwarden.Statements.Snippets.{index_of_text}
use sqlwarden.Statements.{Text, dash, newline, slash, star, quote, double_quote}
use sqlwarden.Common.{ℕ, ◌∷◌, includes, List, [], ◌≡◌, none, false, some, nat_eq}

-- The text begins with a comment, a literal or a quoted identifier and does not have its end.
pub data IsUnclosed : Text → Type 0 where
  line_comment : {body : Text} → includes body newline ≡ false → IsUnclosed (dash ∷ dash ∷ body)
  block_comment :
      {body : Text}
      → index_of_text body (star ∷ slash ∷ []) ≡ none
      → IsUnclosed (slash ∷ star ∷ body)
  string : {body : Text} → includes body quote ≡ false → IsUnclosed (quote ∷ body)
  double_quoted :
      {body : Text} → includes body double_quote ≡ false → IsUnclosed (double_quote ∷ body)
  backquoted : {body : Text} → includes body 96 ≡ false → IsUnclosed (96 ∷ body)
  bracketed : {body : Text} → includes body 93 ≡ false → IsUnclosed (91 ∷ body)

-- The scan of a source comes to a rest of it, with the tokens and the depth so far.
pub data ComesTo (source : Text) : List SqlTriggerToken → ℕ → Text → Type 0 where
  begins : ComesTo source [] 0 source
  turns :
      {tokens next_tokens : List SqlTriggerToken} {depth next_depth c : ℕ} {cs rest : Text}
      → ComesTo source tokens depth (c ∷ cs)
      → scan_turn tokens depth c cs ≡ some (next_tokens, next_depth, rest)
      → ComesTo source next_tokens next_depth rest
