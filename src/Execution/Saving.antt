-- ===== src/Execution/Saving.antt =====
-- frontend/src/components/ide/filePersistence.ts: saving the file of a tab.
-- `read_content` reads the document of the tab, and `update_file` stands for the request, which answers
-- with the new etag of the file.
use sqlwarden.Common.{
  refl, [], ◌∷◌, none, some, Option, List, String, ◌≡◌, ℕ, if◌then◌else◌, map, false, not,
  Bool-cases, ◌||◌, ◌==◌, string_eq, inl, inr, nat_eq, arith, ap, ◌⊎◌, Option-cases, true, ◌≢◌,
  eq_iff, ◌∙◌,
}
use sqlwarden.Store.State.{IdeState, EditorTab}
use sqlwarden.Store.Tabs.{is_file, tab_named, update_tab_etag, change_etag}
use sqlwarden.Execution.Failure.{Attempt, done, threw, Attempt-cases}

pub data SaveEditorTabResult : Type 0 where
  saved : SaveEditorTabResult
  save_as : EditorTab → SaveEditorTabResult

-- The file and the etag to save with: the empty etag and the file 0 count as missing.
unfoldable pub save_target : EditorTab → Option (ℕ × String)
save_target tab = elim (tab.etag) [
  | none ↦ none
  | some etag ↦ elim (tab.file_id) [
    | none ↦ none
    | some file_id ↦
        if not (is_file tab.kind) || etag == "" || file_id == 0 then none else some (file_id, etag)
  ]
]

unfoldable pub save_editor_tab :
    (EditorTab → String)
    → (ℕ → String → String → Attempt String)
    → EditorTab
    → IdeState
    → Attempt SaveEditorTabResult × IdeState
save_editor_tab read_content update_file tab s =
    let content = read_content tab in
    elim (save_target tab) [
      | none ↦ (done (save_as (record tab { content = content })), s)
      | some (file_id, etag) ↦ elim (update_file file_id content etag) [
        | threw e ↦ (threw e, s)
        | done new_etag ↦ (done saved, update_tab_etag s tab.id new_etag)
      ]
    ]

tab_named-change_etag :
    (tabs : List EditorTab) (t etag : String) (x : EditorTab)
    → tab_named tabs t ≡ some x
    → tab_named (map (change_etag t etag) tabs) t
      ≡ some (record x { etag = some etag; is_dirty = some false })
unfolding change_etag
tab_named-change_etag [] t etag x e = cc
tab_named-change_etag (y ∷ ys) t etag x e = elim (Bool-cases (y.id == t)) [
  | inl k ↦
      let same : y ≡ x = ground arith in
      let changed : change_etag t etag y ≡ record y { etag = some etag; is_dirty = some false } =
        rw (change_etag, k) refl in
      rw (changed, k)
        (ap {A = EditorTab} (λ z. some (record z { etag = some etag; is_dirty = some false })) same)
  | inr k ↦ ground (arith, tab_named-change_etag ys t etag x)
]

-- The tab has nothing to save to: it is not that of a file, or its etag or its file is missing.
abbrev pub IsUnsavable : EditorTab → Type 0
IsUnsavable tab =
    (is_file tab.kind ≡ false)
    ⊎ (tab.etag ≡ none)
    ⊎ (tab.etag ≡ some "")
    ⊎ (tab.file_id ≡ none)
    ⊎ (tab.file_id ≡ some 0)

-- The tab is that of the file, saved before with the etag.
pub record HasTarget (tab : EditorTab) (file_id : ℕ) (etag : String) : Type 0 where
  pub of_file : is_file tab.kind ≡ true
  pub file_given : tab.file_id ≡ some file_id
  pub file_real : file_id ≢ 0
  pub etag_given : tab.etag ≡ some etag
  pub etag_real : etag ≢ ""

save_target-cases :
    (tab : EditorTab)
    → (IsUnsavable tab × (save_target tab ≡ none))
      ⊎ ((file_id : ℕ) × (etag : String) × HasTarget tab file_id etag
          × (save_target tab ≡ some (file_id, etag)))
unfolding save_target
save_target-cases tab = elim (Option-cases tab.etag) [
  | inl e ↦ inl (inr (inl e), rw (save_target, e) refl)
  | inr (etag, e) ↦ elim (Option-cases tab.file_id) [
    | inl f ↦ inl (inr (inr (inr (inl f))), rw (save_target, e, f) refl)
    | inr (file_id, f) ↦ elim (Bool-cases (is_file tab.kind)) [
      | inr k ↦ inl (inl k, rw (save_target, e, f, k) refl)
      | inl k ↦ elim (Bool-cases (etag == "")) [
        | inl z ↦ inl (
          inr (inr (inl (e ∙ ap some ((eq_iff etag "").0 z)))),
          rw (save_target, e, f, k, z) refl,
        )
        | inr z ↦ elim (Bool-cases (file_id == 0)) [
          | inl y ↦
              let zero_id : file_id ≡ 0 = ground (arith, y) in
              inl
                (inr (inr (inr (inr (f ∙ ap some zero_id)))), rw (save_target, e, f, k, z, y) refl)
          | inr y ↦ inr (
            file_id,
            etag,
            record {
              of_file = k;
              file_given = f;
              file_real = λ q. ground (arith, q, y);
              etag_given = e;
              etag_real = λ q. ground (arith, (eq_iff etag "").1 q, z);
            },
            rw (save_target, e, f, k, z, y) refl,
          )
        ]
      ]
    ]
  ]
]

-- The other tabs are found as before.
tab_named-other :
    (tabs : List EditorTab) (t etag u : String)
    → (u == t) ≡ false
    → tab_named (map (change_etag t etag) tabs) u ≡ tab_named tabs u
unfolding change_etag
tab_named-other [] t etag u h = refl
tab_named-other (y ∷ ys) t etag u h = elim (Bool-cases (y.id == t)) [
  | inl k ↦
      let same : (y.id == u) ≡ false =
        ground (arith, h, eq_iff y.id t, k, eq_iff y.id u, eq_iff u t) in
      let changed : change_etag t etag y ≡ record y { etag = some etag; is_dirty = some false } =
        rw (change_etag, k) refl in
      rw (changed, same) (tab_named-other ys t etag u h)
  | inr k ↦ ground (arith, k, tab_named-other ys t etag u h)
]

-- What the answer of the request makes of a save: a refusal is the outcome and leaves the store alone;
-- a new etag goes to the tab, which is clean then, and nothing else of the store changes but tabs.
abbrev pub IsSaved :
    EditorTab → IdeState → Attempt String → Attempt SaveEditorTabResult × IdeState → Type 0
IsSaved tab s (threw e) out = out ≡ (threw e, s)
IsSaved tab s (done new_etag) out =
    (tabs : List EditorTab) × (out ≡ (done saved, record s { tabs = tabs }))
    × (tab_named tabs tab.id ≡ some (record tab { etag = some new_etag; is_dirty = some false }))
    × ((t : String) → (t == tab.id) ≡ false → tab_named tabs t ≡ tab_named s.tabs t)

-- Of a tab of the store: if it is not that of a file, or lacks its etag or its file, it comes back
-- with the content that is read, and the store stays. Any other tab is saved: the content goes to
-- its file with its etag; if the request is refused, so is the save, and the store stays; if it
-- answers with a new etag, the save succeeds, the tab is clean with that etag, and the other tabs
-- and the rest of the store stay.
pub save_editor_tab-outcome :
    (read_content : EditorTab → String) (update_file : ℕ → String → String → Attempt String)
    (tab : EditorTab) (s : IdeState)
    → tab_named s.tabs tab.id ≡ some tab
    → (IsUnsavable tab
        × (save_editor_tab read_content update_file tab s
            ≡ (done (save_as (record tab { content = read_content tab })), s)))
      ⊎ ((file_id : ℕ) × (etag : String) × HasTarget tab file_id etag
          × IsSaved tab s
              (update_file file_id (read_content tab) etag)
              (save_editor_tab read_content update_file tab s))
unfolding save_editor_tab update_tab_etag
save_editor_tab-outcome read_content update_file tab s h = elim (save_target-cases tab) [
  | inl (n, f) ↦ inl (n, rw (save_editor_tab, f) refl)
  | inr (file_id, etag, t, f) ↦ inr (
    file_id,
    etag,
    t,
    elim (Attempt-cases (update_file file_id (read_content tab) etag)) [
      | inr (e, g) ↦ rw g (rw (save_editor_tab, f, g) refl)
      | inl (new_etag, g) ↦ rw g (
        map (change_etag tab.id new_etag) s.tabs,
        rw (save_editor_tab, f, g) refl,
        tab_named-change_etag s.tabs tab.id new_etag tab h,
        λ u d. tab_named-other s.tabs tab.id new_etag u d,
      )
    ],
  )
]
