-- ===== src/Statements/Snippets.antt =====
-- frontend/src/components/ide/searchSnippetHighlight.ts: the parts of an excerpt that match a query.
-- `lower` stands for `toLowerCase`.
use sqlwarden.Statements.Kept.{drop_add, length-drop_units}
use sqlwarden.Statements.{Text, slice, trim}
use sqlwarden.Common.{
  ℕ, zero, suc, Bool, true, false, List, [], ◌∷◌, ◌++◌, Option, none, some, if◌then◌else◌, ◌==◌,
  nat_eq, ltb, length, drop, take, ◌+◌, ◌-◌, ◌≡◌, refl, arith, ◌≤◌, Bool-cases, ap, inr, ◌∙◌, sym,
  inl, append_assoc, Option-cases, append-nil, length-eq-zero, append-take-drop,
}

pub record Segment : Type 0 where
  pub text : Text
  pub matched : Bool

-- Whether a text begins with another one.
unfoldable pub begins_with : Text → Text → Bool
begins_with text [] = true
begins_with [] (q ∷ query) = false
begins_with (c ∷ text) (q ∷ query) = if c == q then begins_with text query else false

-- `text.indexOf(query)`, and `text.indexOf(query, cursor)` for a cursor within the text.
unfoldable pub index_of_text : Text → Text → Option ℕ
index_of_text [] query = if begins_with [] query then some 0 else none
index_of_text (c ∷ text) query =
    let rest = index_of_text text query in
    if begins_with (c ∷ text) query
    then some 0
    else elim rest [ none ↦ none | some i ↦ some (suc i) ]

unfoldable pub index_from : Text → Text → ℕ → Option ℕ
index_from text query cursor = elim (index_of_text (drop cursor text) query) [
  | none ↦ none
  | some i ↦ some (cursor + i)
]

-- The segments of one turn: what stands before the match, if anything, and the match.
unfoldable pub push_match : Text → ℕ → ℕ → ℕ → List Segment
push_match excerpt cursor match_index size =
    let found : Segment = record {
      text = slice excerpt match_index (match_index + size);
      matched = true;
    } in
    if ltb cursor match_index
    then record { text = slice excerpt cursor match_index; matched = false } ∷ found ∷ []
    else found ∷ []

-- The loop on fuel; `none` is out of fuel.
unfoldable pub highlight_loop : ℕ → Text → Text → Text → ℕ → Option (List Segment)
highlight_loop zero excerpt lower_excerpt lower_query cursor =
    if ltb cursor (length excerpt) then none else some []
highlight_loop (suc fuel) excerpt lower_excerpt lower_query cursor =
    let turn : Option (List Segment) = elim (index_from lower_excerpt lower_query cursor) [
      | none ↦ some (record { text = drop cursor excerpt; matched = false } ∷ [])
      | some i ↦
          elim (highlight_loop fuel excerpt lower_excerpt lower_query (i + length lower_query)) [
            | none ↦ none
            | some segments ↦ some (push_match excerpt cursor i (length lower_query) ++ segments)
          ]
    ] in
    if ltb cursor (length excerpt) then turn else some []

abbrev pub whole : Text → List Segment
whole excerpt = record { text = excerpt; matched = false } ∷ []

-- `segments.length > 0 ? segments : …`.
unfoldable pub or_whole : Text → List Segment → List Segment
or_whole excerpt [] = whole excerpt
or_whole excerpt (segment ∷ segments) = segment ∷ segments

-- Each turn goes on by the length of the query, so the length of the excerpt is enough fuel.
unfoldable pub highlight_snippet : (Text → Text) → Text → Text → Option (List Segment)
highlight_snippet lower excerpt query =
    let trimmed = trim query in
    if length trimmed == 0
    then some (whole excerpt)
    else elim (highlight_loop (length excerpt) excerpt (lower excerpt) (lower trimmed) 0) [
      | none ↦ none
      | some segments ↦ some (or_whole excerpt segments)
    ]

abbrev pub texts_of : List Segment → Text
texts_of [] = []
texts_of (segment ∷ segments) = segment.text ++ texts_of segments

-- A text from an offset on is a slice of it and the rest.
slice-append :
    (text : Text) (start stop : ℕ)
    → start ≤ stop
    → slice text start stop ++ drop stop text ≡ drop start text
unfolding slice
slice-append text start stop h =
    let n : stop ≡ start + (stop - start) = omega (arith, h) in
    let same : drop stop text ≡ drop (stop - start) (drop start text) =
      ap (λ k. drop k text) n ∙ drop_add text start (stop - start) in
    ap (λ rest. take (stop - start) (drop start text) ++ rest) same
    ∙ append-take-drop (stop - start) (drop start text)

texts-append : (xs ys : List Segment) → texts_of (xs ++ ys) ≡ texts_of xs ++ texts_of ys
texts-append [] ys = refl
texts-append (x ∷ xs) ys =
    ap (◌++◌ x.text) (texts-append xs ys) ∙ sym (append_assoc x.text (texts_of xs) (texts_of ys))

-- The segments of a turn are what stands between the old and the new cursor.
texts-push_match :
    (excerpt : Text) (cursor i size : ℕ)
    → cursor ≤ i
    → texts_of (push_match excerpt cursor i size) ++ drop (i + size) excerpt ≡ drop cursor excerpt
unfolding push_match
texts-push_match excerpt cursor i size h =
    let after = slice-append excerpt i (i + size) (omega arith) in
    elim (Bool-cases (ltb cursor i)) [
      | inl t ↦ rw (t, append-nil, append_assoc, after) (slice-append excerpt cursor i h)
      | inr f ↦
          let same : i ≡ cursor = ground (arith, h, f) in
          rw (f, append-nil, after) (ap (λ k. drop k excerpt) same)
    ]

drop_all : (text : Text) (n : ℕ) → length text ≤ n → drop n text ≡ []
drop_all text n h = length-eq-zero (drop n text) (omega (arith, h, length-drop_units text n))

highlight_loop-texts :
    (fuel : ℕ) (excerpt lower_excerpt lower_query : Text) (cursor : ℕ)
    → 1 ≤ length lower_query
    → length excerpt ≤ cursor + fuel
    → (segments : List Segment) × (highlight_loop fuel excerpt lower_excerpt lower_query cursor
        ≡ some segments)
      × (texts_of segments ≡ drop cursor excerpt)
unfolding highlight_loop index_from
highlight_loop-texts zero excerpt lower_excerpt lower_query cursor q h =
    ([], ground (arith, h), sym (drop_all excerpt cursor (omega (arith, h))))
highlight_loop-texts (suc fuel) excerpt lower_excerpt lower_query cursor q h =
    elim (Bool-cases (ltb cursor (length excerpt))) [
      | inr f ↦ ([], rw f refl, sym (drop_all excerpt cursor (ground (arith, f))))
      | inl t ↦ elim (Option-cases (index_of_text (drop cursor lower_excerpt) lower_query)) [
        | inl e ↦ (
          record { text = drop cursor excerpt; matched = false } ∷ [],
          rw (t, e) refl,
          append-nil _,
        )
        | inr (k, e) ↦
            let (rest, r, texts) =
              highlight_loop-texts fuel excerpt lower_excerpt lower_query
                (cursor + k + length lower_query) q (omega (arith, h, q)) in
            (
              push_match excerpt cursor (cursor + k) (length lower_query) ++ rest,
              rw (t, e, r) refl,
              texts-append (push_match excerpt cursor (cursor + k) (length lower_query)) rest
                  ∙ ap
                      (◌++◌
                        (texts_of (push_match excerpt cursor (cursor + k) (length lower_query))))
                      texts
                  ∙ texts-push_match excerpt cursor (cursor + k) (length lower_query) (omega arith),
            )
      ]
    ]

texts-or_whole :
    (excerpt : Text) (segments : List Segment)
    → texts_of segments ≡ excerpt
    → texts_of (or_whole excerpt segments) ≡ excerpt
unfolding or_whole
texts-or_whole excerpt [] h = append-nil excerpt
texts-or_whole excerpt (segment ∷ segments) h = h

-- The highlighting of an excerpt always returns, and its segments put together are the excerpt, where
-- the lower case of a text that is not empty is not empty.
pub highlight_snippet-texts :
    (lower : Text → Text) (excerpt query : Text)
    → ((text : Text) → 1 ≤ length text → 1 ≤ length (lower text))
    → (segments : List Segment) × (highlight_snippet lower excerpt query ≡ some segments)
      × (texts_of segments ≡ excerpt)
unfolding highlight_snippet
highlight_snippet-texts lower excerpt query grow = elim (Bool-cases (length (trim query) == 0)) [
  | inl t ↦ (whole excerpt, rw t refl, append-nil excerpt)
  | inr f ↦
      let (segments, e, texts) =
        highlight_loop-texts (length excerpt) excerpt (lower excerpt) (lower (trim query)) 0
          (grow (trim query) (ground (arith, f))) (omega arith) in
      (or_whole excerpt segments, rw (f, e) refl, texts-or_whole excerpt segments texts)
]
