-- ===== src/Completion/Nesting.antt =====
-- The depth of every token is the number of parentheses open before it, and the scan returns.
use sqlwarden.Completion.{
  is_digit_unit, scan_dollar, SqlTriggerToken, TokenKind, symbol, word, value, number, identifier,
  rest_after_quoted, rest_after, span_while, Text, push_word, scan_plain, pass_comment, Turn,
  push_token, begins_word, continues_word, continues_number, scan_dollar, scan_turn, scan_loop,
  scan_sql_trigger_prefix, dollar_tag, is_space, SqlTriggerScan, dash, newline, slash, star, quote,
  double_quote,
}
use sqlwarden.Completion.Reading.{
  IsWithin, span_while-within, rest_after-drop-IsWithin, rest_after_quoted-IsWithin,
}
use sqlwarden.Common.{
  ℕ, if◌then◌else◌, if_both, Option, List, ◌-◌, suc, length, some, ◌≤◌, Bool, ◌≡◌, ◌∷◌,
  Option-cases, drop, arith, none, ◌++◌, false, [], ◌==◌, subst, nat_eq, sym, ◌∙◌, inl, ◌&&◌, ap,
  inr, refl, Bool-cases, option_beq, get_elem?, true, zero, ◌||◌,
}

-- Whether a token is the symbol of one unit.
abbrev is_mark : ℕ → TokenKind → Text → Bool
is_mark u symbol [] = false
is_mark u symbol (c ∷ []) = c == u
is_mark u symbol (c ∷ d ∷ cs) = false
is_mark u word text = false
is_mark u identifier text = false
is_mark u number text = false
is_mark u value text = false

-- The depth of a token behind `d` open parentheses: a closing one has that of its opening one.
abbrev own_depth : ℕ → SqlTriggerToken → ℕ
own_depth d token = if is_mark 41 token.kind token.text then d - 1 else d

-- How many parentheses are open behind the token.
abbrev open_after : ℕ → SqlTriggerToken → ℕ
open_after d token =
    if is_mark 40 token.kind token.text then suc (own_depth d token) else own_depth d token

-- Behind `d` open parentheses every token has its depth, and `e` are open at the end.
abbrev pub Nests : ℕ → List SqlTriggerToken → ℕ → Type 0
Nests d [] e = d ≡ e
Nests d (token ∷ tokens) e = (token.depth ≡ own_depth d token) × Nests (open_after d token) tokens e

Nests-snoc :
    (d : ℕ) (tokens : List SqlTriggerToken) (e : ℕ) (token : SqlTriggerToken)
    → Nests d tokens e
    → token.depth ≡ own_depth e token
    → Nests d (tokens ++ token ∷ []) (open_after e token)
Nests-snoc d [] e token h own =
    (own ∙ ap (λ k. own_depth k token) (sym h), ap (λ k. open_after k token) h)
Nests-snoc d (t ∷ tokens) e token (h, rest) own =
    (h, Nests-snoc (open_after d t) tokens e token rest own)

-- A turn keeps the depths, and leaves at most `n` units.
abbrev pub IsGood : ℕ → Option Turn → Type 0
IsGood n none = Unit
IsGood n (some (tokens, depth, rest)) = Nests 0 tokens depth × (length rest ≤ n)

module _ (tokens : List SqlTriggerToken) (depth : ℕ) (h : Nests 0 tokens depth) where
  pass_comment-IsGood :
      (n : ℕ) (o : Option Text) → IsWithin n o → IsGood n (pass_comment tokens depth o)
  unfolding pass_comment
  pass_comment-IsGood n none within = tt
  pass_comment-IsGood n (some rest) within = (h, within)

  push_token-IsGood :
      (n : ℕ) (text : Text) (kind : TokenKind) (o : Option Text)
      → is_mark 40 kind text ≡ false
      → is_mark 41 kind text ≡ false
      → IsWithin n o
      → IsGood n (push_token tokens depth text kind o)
  unfolding push_token
  push_token-IsGood n text kind none no_open no_close within = tt
  push_token-IsGood n text kind (some rest) no_open no_close within =
      let token : SqlTriggerToken = record { text = text; kind = kind; depth = depth } in
      let own : own_depth depth token ≡ depth = rw no_close refl in
      let after : open_after depth token ≡ depth = rw (no_open, no_close) refl in
      (
        subst (Nests 0 (tokens ++ token ∷ [])) after (Nests-snoc 0 tokens depth token h (sym own)),
        within,
      )

  push_word-IsGood :
      (c : ℕ) (p : ℕ → Bool) (cs : Text) (kind : TokenKind)
      → ((text : Text) → is_mark 40 kind text ≡ false)
      → ((text : Text) → is_mark 41 kind text ≡ false)
      → IsGood (length cs) (push_word tokens depth c (span_while p cs) kind)
  unfolding push_word
  push_word-IsGood c p cs kind no_open no_close =
      push_token-IsGood (length cs) (c ∷ (span_while p cs).0) kind (some (span_while p cs).1)
        (no_open _) (no_close _) (span_while-within p cs)

  -- A symbol: the parentheses change the depth, and no other one does.
  symbol-IsGood :
      (c : ℕ) (cs : Text)
      → IsGood (length cs) (
          if c == 40
          then some
              (tokens ++ record { text = c ∷ []; kind = symbol; depth = depth } ∷ [], suc depth, cs)
          else if c == 41
          then push_token tokens (depth - 1) (c ∷ []) symbol (some cs)
          else push_token tokens depth (c ∷ []) symbol (some cs))
  unfolding push_token
  symbol-IsGood c cs =
      let here : SqlTriggerToken = record { text = c ∷ []; kind = symbol; depth = depth } in
      let closed : SqlTriggerToken = record { text = c ∷ []; kind = symbol; depth = depth - 1 } in
      elim (Bool-cases (c == 40)) [
        | inl opens ↦
            let stays : c == 41 ≡ false = ground (arith, opens) in
            let own : own_depth depth here ≡ depth = rw stays refl in
            let after : open_after depth here ≡ suc depth = rw (opens, stays) refl in
            rw opens (
              subst (Nests 0 (tokens ++ here ∷ [])) after
                  (Nests-snoc 0 tokens depth here h (sym own)),
              omega arith,
            )
        | inr no_open ↦ elim (Bool-cases (c == 41)) [
          | inl closes ↦
              let own : own_depth depth closed ≡ depth - 1 = rw closes refl in
              let after : open_after depth closed ≡ depth - 1 = rw (no_open, closes) refl in
              rw (no_open, closes)
                (
                  subst (Nests 0 (tokens ++ closed ∷ [])) after
                      (Nests-snoc 0 tokens depth closed h (sym own)),
                  omega arith,
                )
          | inr stays ↦
              rw (no_open, stays)
                (push_token-IsGood (length cs) (c ∷ []) symbol (some cs) no_open stays
                  (omega arith))
        ]
      ]

  scan_plain-IsGood : (c : ℕ) (cs : Text) → IsGood (length cs) (scan_plain tokens depth c cs)
  unfolding scan_plain
  scan_plain-IsGood c cs =
      let good = IsGood (length cs) in
      if_both good (begins_word c)
        (push_word-IsGood c continues_word cs word (λ t. refl) (λ t. refl))
        (if_both good (is_digit_unit c)
          (push_word-IsGood c continues_number cs number (λ t. refl) (λ t. refl))
          (if_both good (c == 59) (refl, omega arith) (symbol-IsGood c cs)))

  scan_dollar-IsGood : (c : ℕ) (cs : Text) → IsGood (length cs) (scan_dollar tokens depth c cs)
  unfolding scan_dollar
  scan_dollar-IsGood c cs = elim (Option-cases (dollar_tag cs)) [
    | inl e ↦ rw (scan_dollar, e) (scan_plain-IsGood c cs)
    | inr (name, e) ↦
        rw (scan_dollar, e)
          (push_token-IsGood (length cs) [] value
            (rest_after (36 ∷ name ++ 36 ∷ []) (drop (suc (length name)) cs)) refl refl
            (rest_after-drop-IsWithin (36 ∷ name ++ 36 ∷ []) (suc (length name)) cs))
  ]

  pub scan_turn-IsGood : (c : ℕ) (cs : Text) → IsGood (length cs) (scan_turn tokens depth c cs)
  unfolding scan_turn
  scan_turn-IsGood c cs =
      let good = IsGood (length cs) in
      let next = get_elem? cs 0 in
      let comment : (p : Text) → good (pass_comment tokens depth (rest_after p (drop 1 cs))) = λ p.
        pass_comment-IsGood (length cs) (rest_after p (drop 1 cs))
          (rest_after-drop-IsWithin p 1 cs) in
      if_both good (is_space c) (h, omega arith)
        (if_both good (c == dash && option_beq next (some dash)) (comment (newline ∷ [])) (
          if_both good (c == slash && option_beq next (some star)) (comment (star ∷ slash ∷ [])) (
            if_both good (c == quote)
              (push_token-IsGood (length cs) [] value (rest_after_quoted quote true false cs) refl
                refl (rest_after_quoted-IsWithin quote true false cs))
              (if_both good (c == double_quote || c == 96)
                (push_token-IsGood (length cs) [] identifier (rest_after_quoted c true false cs)
                  refl refl (rest_after_quoted-IsWithin c true false cs))
                (if_both good (c == 91)
                  (push_token-IsGood (length cs) [] identifier (rest_after_quoted 93 false false cs)
                    refl refl (rest_after_quoted-IsWithin 93 false false cs))
                  (if_both good (c == 36) (scan_dollar-IsGood c cs) (scan_plain-IsGood c cs)))))))

scan_loop-Nests :
    (fuel : ℕ) (tokens : List SqlTriggerToken) (depth : ℕ) (text : Text)
    → Nests 0 tokens depth
    → length text ≤ fuel
    → (scan : SqlTriggerScan) × (scan_loop fuel tokens depth text ≡ some scan)
      × ((e : ℕ) × Nests 0 scan.tokens e)
unfolding scan_loop
scan_loop-Nests fuel tokens depth [] h le =
    (record { tokens = tokens; protected_region = false }, unfold scan_loop in refl, (depth, h))
scan_loop-Nests zero tokens depth (c ∷ cs) h le = ground (arith, le)
scan_loop-Nests (suc fuel) tokens depth (c ∷ cs) h le =
    elim (Option-cases (scan_turn tokens depth c cs)) [
      | inl e ↦
          (record { tokens = tokens; protected_region = true }, rw (scan_loop, e) refl, (depth, h))
      | inr ((pushed, below, rest), e) ↦
          let (nests, shorter) =
            subst (IsGood (length cs)) e (scan_turn-IsGood tokens depth h c cs) in
          let (scan, s, found) =
            scan_loop-Nests fuel pushed below rest nests (omega (arith, le, shorter)) in
          (scan, rw (scan_loop, e) s, found)
    ]

-- The scan of a text always returns, and the depth of each of its tokens is the number of parentheses
-- that are open before it, where a closing one has the depth of its opening one and counts for nothing
-- if none is open.
pub scan_sql_trigger_prefix-Nests :
    (source : Text)
    → (scan : SqlTriggerScan) × (scan_sql_trigger_prefix source ≡ some scan)
      × ((e : ℕ) × Nests 0 scan.tokens e)
unfolding scan_sql_trigger_prefix
scan_sql_trigger_prefix-Nests source =
    scan_loop-Nests (length source) [] 0 source refl (omega arith)
