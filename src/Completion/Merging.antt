-- ===== src/Completion/Merging.antt =====
-- Merging two lists of completions keeps the first one of each key.
use sqlwarden.Statements.{Text}
use Prim.Native.Nat.{Ordering}
use sqlwarden.Completion.Trigger.{text_beq}
use sqlwarden.Completion.Ranking.{
  merge_key, CompletionItem, SortKey, collect, sorted, place, merge_ranked_completions, boost_key,
}
use sqlwarden.Common.{
  if◌then◌else◌, Bool, ◌≡◌, List, true, find, none, ◌↔◌, some, ◌≤◌, filter, [], length, ◌∷◌, arith,
  refl, take, ◌++◌, Bool-cases, false, inr, ◌∙◌, inl, length-eq-zero, ap, if_both, sym, is_some,
  ◌⊎◌, Option-cases, append-nil, filter-append, subst, length-take_le,
}

text_beq_iff : (a b : Text) → (text_beq a b ≡ true) ↔ (a ≡ b)
unfolding text_beq
text_beq_iff [] [] = (λ _. refl, λ _. refl)
text_beq_iff [] (d ∷ ds) = (λ h. cc, λ h. cc)
text_beq_iff (c ∷ cs) [] = (λ h. cc, λ h. cc)
text_beq_iff (c ∷ cs) (d ∷ ds) = ground (arith, text_beq_iff cs ds)

module _ {ℓ} {A : Type ℓ} (p : A → Bool) where
  filter-find-none : (xs : List A) → find p xs ≡ none → filter p xs ≡ []
  filter-find-none [] h = refl
  filter-find-none (x ∷ xs) h = ground (arith, filter-find-none xs)

  filter-find-some : (xs : List A) (x : A) → find p xs ≡ some x → 1 ≤ length (filter p xs)
  filter-find-some [] x h = cc
  filter-find-some (y ∷ xs) x h = ground (arith, filter-find-some xs x)

  module _ (label_order : Text → Text → Ordering) (key : A → SortKey) where
    filter-place-out :
        (x : A) (xs : List A) → p x ≡ false → filter p (place label_order key x xs) ≡ filter p xs
    unfolding place
    filter-place-out x [] h = ground arith
    filter-place-out x (y ∷ ys) h = ground (arith, filter-place-out x ys h)

    filter-place-in :
        (x : A) (xs : List A)
        → p x ≡ true
        → filter p xs ≡ []
        → filter p (place label_order key x xs) ≡ x ∷ []
    unfolding place
    filter-place-in x [] h e = ground arith
    filter-place-in x (y ∷ ys) h e = ground (arith, h, e, filter-place-in x ys h)

    -- The sort keeps what passes a test that at most one element passes.
    filter-sorted :
        (xs : List A)
        → length (filter p xs) ≤ 1
        → filter p (sorted label_order key xs) ≡ filter p xs
    unfolding sorted
    filter-sorted [] h = refl
    filter-sorted (x ∷ xs) h = elim (Bool-cases (p x)) [
      | inr out ↦
          filter-place-out x (sorted label_order key xs) out
          ∙ filter-sorted xs (ground (arith, h, out))
          ∙ ground (arith, out)
      | inl passes ↦
          let alone : filter p xs ≡ [] = length-eq-zero (filter p xs) (ground (arith, h, passes)) in
          let rest : filter p (sorted label_order key xs) ≡ [] =
            filter-sorted xs (ground (arith, alone)) ∙ alone in
          filter-place-in x (sorted label_order key xs) passes rest ∙ ground (arith, passes, alone)
    ]

module _ (lower : Text → Text) (key : Text) where
  abbrev pub has_key : CompletionItem → Bool
  has_key item = text_beq (merge_key lower item) key

  take-short : (xs : List CompletionItem) → length xs ≤ 1 → take 1 xs ≡ xs
  take-short [] h = refl
  take-short (x ∷ xs) h = ap (λ l. x ∷ l) (sym (length-eq-zero xs (omega (arith, h))))

  take-first : (xs ys : List CompletionItem) → 1 ≤ length xs → take 1 (xs ++ ys) ≡ take 1 xs
  take-first [] ys h = ground (arith, h)
  take-first (x ∷ xs) ys h = refl

  -- Whether the merged items have the key of this one, and the merged items with it.
  abbrev has_item : List CompletionItem → CompletionItem → Bool
  has_item merged item =
      is_some (find (λ m. text_beq (merge_key lower m) (merge_key lower item)) merged)

  abbrev with_item : List CompletionItem → CompletionItem → List CompletionItem
  with_item merged item = if has_item merged item then merged else merged ++ item ∷ []

  with_item-out :
      (merged : List CompletionItem) (item : CompletionItem)
      → has_key item ≡ false
      → filter has_key (with_item merged item) ≡ filter has_key merged
  with_item-out merged item out =
      if_both (λ l. filter has_key l ≡ filter has_key merged) (has_item merged item) refl
        (filter-append has_key merged (item ∷ [])
          ∙ ap (◌++◌ (filter has_key merged)) (rw out refl)
          ∙ append-nil (filter has_key merged))

  -- With the key, the item is taken if no merged one has it.
  with_item-in :
      (merged : List CompletionItem) (item : CompletionItem)
      → has_key item ≡ true
      → ((filter has_key merged ≡ []) × (filter has_key (with_item merged item) ≡ item ∷ []))
        ⊎ ((1 ≤ length (filter has_key merged)) × (with_item merged item ≡ merged))
  with_item-in merged item passes =
      let same : merge_key lower item ≡ key = (text_beq_iff (merge_key lower item) key).0 passes in
      let at : (k : Text) → CompletionItem → Bool = λ k m. text_beq (merge_key lower m) k in
      elim (Option-cases (find (at (merge_key lower item)) merged)) [
        | inl e ↦
            let none_yet =
              filter-find-none has_key merged (subst (λ k. find (at k) merged ≡ none) same e) in
            inl (
              none_yet,
              rw e (
                  filter-append has_key merged (item ∷ [])
                  ∙ ap (λ l. l ++ filter has_key (item ∷ [])) none_yet
                  ∙ rw passes refl),
            )
        | inr (m, e) ↦ inr (
          filter-find-some has_key merged m (subst (λ k. find (at k) merged ≡ some m) same e),
          rw e refl,
        )
      ]

  -- The items that are collected with the key are the first one of the list with it, or the one before.
  filter-collect :
      (merged items : List CompletionItem)
      → length (filter has_key merged) ≤ 1
      → filter has_key (collect lower merged items)
        ≡ take 1 (filter has_key merged ++ filter has_key items)
  unfolding collect
  filter-collect merged [] h =
      sym (ap (take 1) (append-nil (filter has_key merged)) ∙ take-short (filter has_key merged) h)
  filter-collect merged (item ∷ items) h =
      let next = with_item merged item in
      let rest = filter has_key items in
      elim (Bool-cases (has_key item)) [
        | inr out ↦
            let same = with_item-out merged item out in
            filter-collect next items (subst (λ l. length l ≤ 1) (sym same) h)
            ∙ ap (λ l. take 1 (l ++ rest)) same
            ∙ rw out refl
        | inl passes ↦ elim (with_item-in merged item passes) [
          | inl (none_yet, one) ↦
              filter-collect next items (subst (λ l. length l ≤ 1) (sym one) (omega arith))
              ∙ ap (λ l. take 1 (l ++ rest)) one
              ∙ rw (passes, none_yet) refl
          | inr (some_yet, same) ↦
              filter-collect next items (subst (λ l. length (filter has_key l) ≤ 1) (sym same) h)
              ∙ ap (λ l. take 1 (filter has_key l ++ rest)) same
              ∙ take-first (filter has_key merged) rest some_yet
              ∙ sym (take-first (filter has_key merged) (filter has_key (item ∷ items)) some_yet)
        ]
      ]

-- A merge has at most one completion of each key, the label in lower case and the type: the first one
-- that the primary list has, or else the first one of the secondary list.
pub merge_ranked_completions-filter :
    (lower : Text → Text) (label_order : Text → Text → Ordering)
    → (primary secondary : List CompletionItem) (key : Text)
    → filter (has_key lower key) (merge_ranked_completions lower label_order primary secondary)
      ≡ take 1 (filter (has_key lower key) primary ++ filter (has_key lower key) secondary)
unfolding merge_ranked_completions
merge_ranked_completions-filter lower label_order primary secondary key =
    let has = has_key lower key in
    let collected = filter-collect lower key [] (primary ++ secondary) (omega arith) in
    filter-sorted has label_order boost_key (collect lower [] (primary ++ secondary))
      (subst (λ l. length l ≤ 1) (sym collected) (length-take_le 1 _))
    ∙ collected
    ∙ ap (take 1) (filter-append has primary secondary)
