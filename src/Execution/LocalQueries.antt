-- ===== src/Execution/LocalQueries.antt =====
-- frontend/src/components/ide/localQueryStore.ts: the history and the favorites that a browser keeps.
-- An object store of IndexedDB is the list of its records in the order of their keys; a time is the
-- number of its instant, by which its text sorts. `trim`, `lower` and `name_less` stand for `trim`,
-- `toLowerCase` and a negative `localeCompare`. A request that fails is not modelled.
pub mod Retention
use text.Mathlib.Text.{find?}
use sqlwarden.Common.{
  ℕ, Bool, not, List, [], ◌∷◌, Option, none, some, String, if◌then◌else◌, ◌==◌, nat_eq, string_eq,
  ltb, length, filter, map, find, take, drop, ◌-◌, ◌*◌, is_some,
}

pub data EntryStatus : Type 0 where
  ok error cancelled : EntryStatus

pub record LocalHistoryEntry : Type 0 where
  pub id : String
  pub connection_id : ℕ
  pub sql_text : String
  pub status : EntryStatus
  pub error_message : Option String
  pub duration_ms : ℕ
  pub rows_affected : ℕ
  pub executed_at : ℕ

pub record LocalFavorite : Type 0 where
  pub id : String
  pub workspace_id : ℕ
  pub connection_id : Option ℕ
  pub name : String
  pub sql_text : String
  pub created_at : ℕ
  pub updated_at : ℕ

-- The newest first; equal ones keep their order.
unfoldable pub place_entry : LocalHistoryEntry → List LocalHistoryEntry → List LocalHistoryEntry
place_entry entry [] = entry ∷ []
place_entry entry (other ∷ entries) =
    if ltb entry.executed_at other.executed_at
    then other ∷ place_entry entry entries
    else entry ∷ other ∷ entries

unfoldable pub sort_entries : List LocalHistoryEntry → List LocalHistoryEntry
sort_entries [] = []
sort_entries (entry ∷ entries) = place_entry entry (sort_entries entries)

-- `index.getAll(connectionId)`.
unfoldable pub entries_of : ℕ → List LocalHistoryEntry → List LocalHistoryEntry
entries_of connection_id history = filter (λ entry. entry.connection_id == connection_id) history

unfoldable pub list_local_history : ℕ → List LocalHistoryEntry → List LocalHistoryEntry
list_local_history connection_id history = sort_entries (entries_of connection_id history)

-- `for (const stale of toRemove) store.delete(stale.id)`.
unfoldable pub delete_entries :
    List LocalHistoryEntry → List LocalHistoryEntry → List LocalHistoryEntry
delete_entries [] history = history
delete_entries (stale ∷ to_remove) history =
    delete_entries to_remove (filter (λ entry. not (entry.id == stale.id)) history)

-- The entry has its new id and its time; `add` puts it in the store at the place of its key.
unfoldable pub add_local_history_entry :
    (LocalHistoryEntry → List LocalHistoryEntry → List LocalHistoryEntry)
    → LocalHistoryEntry
    → ℕ
    → List LocalHistoryEntry
    → List LocalHistoryEntry
add_local_history_entry add full retention_count history =
    let added = add full history in
    let all = list_local_history full.connection_id added in
    if ltb retention_count (length all)
    then delete_entries (drop retention_count all) added
    else added

pub record LocalHistoryPage : Type 0 where
  pub items : List LocalHistoryEntry
  pub page : ℕ
  pub page_size : ℕ
  pub total : ℕ

-- A page number is 1 at least.
unfoldable pub list_local_history_page :
    (String → String)
    → (String → String)
    → Option ℕ
    → Option String
    → ℕ
    → ℕ
    → List LocalHistoryEntry
    → LocalHistoryPage
list_local_history_page trim lower connection_id search page page_size history =
    let all : List LocalHistoryEntry = elim connection_id [
      | none ↦ history
      | some c ↦ entries_of c history
    ] in
    let matching : List LocalHistoryEntry = elim search [
      | none ↦ all
      | some text ↦
          let query = lower (trim text) in
          if query == ""
          then all
          else filter (λ entry. is_some (find? (lower entry.sql_text) query)) all
    ] in
    let sorted = sort_entries matching in
    let start = (page - 1) * page_size in
    record {
      items = take page_size (drop start sorted);
      page = page;
      page_size = page_size;
      total = length sorted;
    }

unfoldable pub clear_local_history : ℕ → List LocalHistoryEntry → List LocalHistoryEntry
clear_local_history connection_id history =
    delete_entries (list_local_history connection_id history) history

unfoldable pub place_favorite :
    (String → String → Bool) → LocalFavorite → List LocalFavorite → List LocalFavorite
place_favorite name_less favorite [] = favorite ∷ []
place_favorite name_less favorite (other ∷ favorites) =
    if name_less other.name favorite.name
    then other ∷ place_favorite name_less favorite favorites
    else favorite ∷ other ∷ favorites

unfoldable pub sort_favorites : (String → String → Bool) → List LocalFavorite → List LocalFavorite
sort_favorites name_less [] = []
sort_favorites name_less (favorite ∷ favorites) =
    place_favorite name_less favorite (sort_favorites name_less favorites)

unfoldable pub list_local_favorites :
    (String → String → Bool) → ℕ → List LocalFavorite → List LocalFavorite
list_local_favorites name_less workspace_id favorites =
    sort_favorites name_less (filter (λ favorite. favorite.workspace_id == workspace_id) favorites)

-- The favorite has its new id; both its times are now.
unfoldable pub add_local_favorite :
    (LocalFavorite → List LocalFavorite → List LocalFavorite)
    → LocalFavorite
    → ℕ
    → List LocalFavorite
    → LocalFavorite × List LocalFavorite
add_local_favorite add favorite now favorites =
    let full : LocalFavorite = record favorite { created_at = now; updated_at = now } in
    (full, add full favorites)

-- The updated favorite, and the store with it in the place of the old one.
unfoldable pub update_local_favorite :
    String → String → String → ℕ → List LocalFavorite → Option LocalFavorite × List LocalFavorite
update_local_favorite id name sql_text now favorites =
    elim (find (λ favorite. favorite.id == id) favorites) [
      | none ↦ (none, favorites)
      | some existing ↦
          let updated : LocalFavorite = record existing {
            name = name;
            sql_text = sql_text;
            updated_at = now;
          } in
          (
            some updated,
            map (λ favorite. if favorite.id == id then updated else favorite) favorites,
          )
    ]

unfoldable pub delete_local_favorite : String → List LocalFavorite → List LocalFavorite
delete_local_favorite id favorites = filter (λ favorite. not (favorite.id == id)) favorites
