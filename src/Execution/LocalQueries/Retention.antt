-- ===== src/Execution/LocalQueries/Retention.antt =====
-- The history of a connection stays within its retention.
use mathlib.Core.List.{Memᴰ}
use sqlwarden.Execution.LocalQueries.{
  LocalHistoryEntry, place_entry, sort_entries, entries_of, list_local_history, delete_entries,
  add_local_history_entry,
}
use sqlwarden.Common.{
  ℕ, Bool, true, false, not, List, [], ◌∷◌, ◌==◌, nat_eq, string_eq, ltb, length, filter, take,
  drop, any, ◌≡◌, ◌≤◌, ◌+◌, refl, arith, All, All-members, filter-append, append-take-drop,
  length-take_le, length-append, Bool-cases, inl, inr, sym, ap, ◌∙◌, eq_iff,
}

-- An entry that none of the deleted ones names.
abbrev stays : List LocalHistoryEntry → LocalHistoryEntry → Bool
stays stale entry = not (any (λ s. entry.id == s.id) stale)

filter-filter :
    {A : Type 0} (p q : A → Bool) (xs : List A) → filter p (filter q xs) ≡ filter q (filter p xs)
filter-filter p q [] = refl
filter-filter p q (x ∷ xs) = ground (arith, filter-filter p q xs)

delete_entries-filter :
    (stale history : List LocalHistoryEntry)
    → delete_entries stale history ≡ filter (stays stale) history
unfolding delete_entries
delete_entries-filter [] [] = refl
delete_entries-filter [] (entry ∷ history) =
    ap (λ es. entry ∷ es) (delete_entries-filter [] history)
delete_entries-filter (s ∷ stale) history =
    delete_entries-filter stale (filter (λ entry. not (entry.id == s.id)) history) ∙ both history
  where
    both :
        (es : List LocalHistoryEntry)
        → filter (stays stale) (filter (λ entry. not (entry.id == s.id)) es)
          ≡ filter (stays (s ∷ stale)) es
    both [] = refl
    both (e ∷ es) = ground (arith, both es)

-- Sorting does not change how many entries pass a test.
length-place_entry :
    (p : LocalHistoryEntry → Bool) (entry : LocalHistoryEntry) (entries : List LocalHistoryEntry)
    → length (filter p (place_entry entry entries)) ≡ length (filter p (entry ∷ entries))
unfolding place_entry
length-place_entry p entry [] = refl
length-place_entry p entry (other ∷ entries) = ground (arith, length-place_entry p entry entries)

length-sort_entries :
    (p : LocalHistoryEntry → Bool) (entries : List LocalHistoryEntry)
    → length (filter p (sort_entries entries)) ≡ length (filter p entries)
unfolding sort_entries
length-sort_entries p [] = refl
length-sort_entries p (entry ∷ entries) =
    ground (arith, length-place_entry p entry (sort_entries entries), length-sort_entries p entries)

length-place_all :
    (entry : LocalHistoryEntry) (entries : List LocalHistoryEntry)
    → length (place_entry entry entries) ≡ length entries + 1
unfolding place_entry
length-place_all entry [] = omega arith
length-place_all entry (other ∷ entries) = ground (arith, length-place_all entry entries)

length-sort_all :
    (entries : List LocalHistoryEntry) → length (sort_entries entries) ≡ length entries
unfolding sort_entries
length-sort_all [] = refl
length-sort_all (entry ∷ entries) =
    omega (arith, length-place_all entry (sort_entries entries), length-sort_all entries)

filter-none :
    {A : Type 0} (p : A → Bool) (xs : List A) → All (λ x. p x ≡ false) xs → filter p xs ≡ []
filter-none p [] h = refl
filter-none p (x ∷ xs) (e, h) = rw e (filter-none p xs h)

length-filter_le : {A : Type 0} (p : A → Bool) (xs : List A) → length (filter p xs) ≤ length xs
length-filter_le p [] = omega arith
length-filter_le p (x ∷ xs) = ground (arith, length-filter_le p xs)

any-named :
    (stale : List LocalHistoryEntry) (entry : LocalHistoryEntry)
    → Memᴰ entry stale
    → any (λ s. entry.id == s.id) stale ≡ true
any-named [] entry m = elim m [ ]
any-named (s ∷ stale) entry (Memᴰ.head q) = ground (arith, eq_iff entry.id s.id, ap (λ e. e.id) q)
any-named (s ∷ stale) entry (Memᴰ.tail m) = ground (arith, any-named stale entry m)

-- What stays of a list, if all from an index on are deleted, is no longer than the index.
length-deleted :
    (n : ℕ) (entries : List LocalHistoryEntry)
    → length (filter (stays (drop n entries)) entries) ≤ n
length-deleted n entries =
    let p = stays (drop n entries) in
    let gone : filter p (drop n entries) ≡ [] =
      filter-none p (drop n entries)
        (All-members _ (drop n entries) (λ e m. ap not (any-named (drop n entries) e m))) in
    let split =
      ap (filter p) (sym (append-take-drop n entries))
      ∙ filter-append p (take n entries) (drop n entries) in
    omega (
      arith,
      ap length split,
      length-append (filter p (take n entries)) (filter p (drop n entries)),
      ap length gone,
      length-filter_le p (take n entries),
      length-take_le n entries,
    )

-- After an entry is added, its connection has at most as many entries as are to be retained, wherever
-- the store puts the new entry and whatever was there before.
pub add_local_history_entry-retained :
    (add : LocalHistoryEntry → List LocalHistoryEntry → List LocalHistoryEntry)
    (full : LocalHistoryEntry) (retention_count : ℕ) (history : List LocalHistoryEntry)
    → length (
        list_local_history full.connection_id
          (add_local_history_entry add full retention_count history))
      ≤ retention_count
unfolding add_local_history_entry list_local_history entries_of
add_local_history_entry-retained add full n history =
    let added = add full history in
    let mine = λ (e : LocalHistoryEntry). e.connection_id == full.connection_id in
    let all = sort_entries (filter mine added) in
    elim (Bool-cases (ltb n (length all))) [
      | inr f ↦ rw f (ground (arith, f))
      | inl t ↦
          let stale = drop n all in
          let kept =
            ap (filter mine) (delete_entries-filter stale added)
            ∙ filter-filter mine (stays stale) added in
          rw t (
            omega (
              arith,
              length-sort_all (filter mine (delete_entries stale added)),
              ap length kept,
              length-sort_entries (stays stale) (filter mine added),
              length-deleted n all,
            ))
    ]
