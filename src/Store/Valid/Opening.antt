-- ===== src/Store/Valid/Opening.antt =====
-- The actions that open tabs keep the store valid, and never throw on a valid store.
use sqlwarden.Layout.Placing.{all_groups-place_at, at_end-All}
use sqlwarden.Layout.Flat.{All-map_groups, first_group-IsNormal}
use sqlwarden.Layout.Operations.{
  set_active-IsSound, add_tab-IsSound, create_group-IsSound, place_tab_at_edge-IsSound,
}
use sqlwarden.Common.{
  ℕ, ◌≡◌, refl, true, false, ◌&&◌, List, [], ◌∷◌, ◌++◌, Option, none, some, String, ◌==◌, string_eq,
  nat_eq, lookup, map, includes, arith, IsDistinct, inl, inr, subst, Option-cases, map-append,
  any-append, Bool-cases, if_both, IsDistinct-append_one, ◌∙◌, eq_iff,
}
use sqlwarden.Layout.Tree.{
  GroupNode, LayoutNode, group, all_groups, create_group, is_empty_group, split,
}
use sqlwarden.Layout.Tabs.{add_tab, set_active}
use sqlwarden.Layout.Splits.{place_tab_at_edge, Side}
use sqlwarden.Layout.Sound.{IsSound}
use sqlwarden.Store.State.{
  IdeState, EditorTab, focused_or_first, ensure_workspace_layout, focused_group,
}
use sqlwarden.Store.Tabs.{
  open_tab, open_tab_to_side, ensure_tab, with_tab, is_open, show_in_place, show_to_side, is_blank,
  add_quietly,
}
use sqlwarden.Store.Valid.{IsValid, Fits, AllFit-insert, AllFit-tabs, Fits-tabs}
use sqlwarden.Store.Valid.Groups.{
  is_listed, IsListedGroup, add_tab_to-IsListedGroup, activate-IsListedGroup,
}

-- An open tab with the same id belongs to the same workspace, as its id says.
abbrev pub IsOwn : List EditorTab → EditorTab → Type 0
IsOwn tabs tab = is_open tabs tab.id ≡ true → is_listed tabs tab.workspace_id tab.id ≡ true

focused_or_first-some :
    (n : LayoutNode) (focused : Option String)
    → IsSound n
    → (g : GroupNode) × (focused_or_first n focused ≡ some g)
unfolding focused_or_first
focused_or_first-some n focused v = elim (Option-cases (focused_group n focused)) [
  | inl e ↦ let (g, f) = first_group-IsNormal n v.normal in (g, rw (e, f))
  | inr (g, e) ↦ (g, rw e)
]

blank-Fits :
    (tabs : List EditorTab) (ws : ℕ) (id : String) → Fits tabs ws (group (create_group id [] none))
unfolding all_groups create_group
blank-Fits tabs ws id = record { sound = create_group-IsSound id; listed = (λ t i. cc, tt) }

-- A valid store has a layout with a pane for every workspace.
pub ensure_workspace_layout-Fits :
    (s : IdeState) (ws : ℕ) (new_id : String)
    → IsValid s
    → (n : LayoutNode) × (id : String) × (ensure_workspace_layout s ws new_id ≡ some (n, id))
      × Fits s.tabs ws n
unfolding ensure_workspace_layout
ensure_workspace_layout-Fits s ws new_id v = elim (Option-cases (lookup ws s.layout)) [
  | inl e ↦ (
    group (create_group new_id [] none),
    new_id,
    rw (e, ensure_workspace_layout),
    blank-Fits s.tabs ws new_id,
  )
  | inr (n, e) ↦
      let (g, f) = focused_or_first-some n (lookup ws s.active_group_id) (v.layouts ws n e).sound in
      (n, g.id, rw (e, ensure_workspace_layout, f), v.layouts ws n e)
]

is_listed-append :
    (tabs : List EditorTab) (tab : EditorTab) (ws : ℕ) (t : String)
    → is_listed tabs ws t ≡ true
    → is_listed (tabs ++ tab ∷ []) ws t ≡ true
is_listed-append tabs tab ws t h =
    ground (arith, any-append (λ x. x.id == t && x.workspace_id == ws) tabs (tab ∷ []))

is_listed-with_tab :
    (tabs : List EditorTab) (tab : EditorTab) (ws : ℕ) (t : String)
    → is_listed tabs ws t ≡ true
    → is_listed (with_tab tabs tab) ws t ≡ true
unfolding with_tab
is_listed-with_tab tabs tab ws t h =
    if_both (λ l. is_listed l ws t ≡ true) (is_open tabs tab.id) h
      (is_listed-append tabs tab ws t h)

is_listed-append_self :
    (tabs : List EditorTab) (tab : EditorTab)
    → is_listed (tabs ++ tab ∷ []) tab.workspace_id tab.id ≡ true
is_listed-append_self tabs tab = ground (
  arith,
  any-append (λ x. x.id == tab.id && x.workspace_id == tab.workspace_id) tabs (tab ∷ []),
  string_eq.test_iff tab.id tab.id,
  nat_eq.test_iff tab.workspace_id tab.workspace_id,
)

is_listed-with_tab_self :
    (tabs : List EditorTab) (tab : EditorTab)
    → IsOwn tabs tab
    → is_listed (with_tab tabs tab) tab.workspace_id tab.id ≡ true
unfolding with_tab
is_listed-with_tab_self tabs tab own = ground (arith, is_listed-append_self tabs tab)

includes-map-id :
    (tabs : List EditorTab) (t : String) → includes (map (λ x. x.id) tabs) t ≡ is_open tabs t
includes-map-id [] t = refl
includes-map-id (x ∷ xs) t = ground (arith, includes-map-id xs t)

append-IsDistinct :
    (tabs : List EditorTab) (tab : EditorTab)
    → is_open tabs tab.id ≡ false
    → IsDistinct (map (λ x. x.id) tabs)
    → IsDistinct (map (λ x. x.id) (tabs ++ tab ∷ []))
append-IsDistinct tabs tab n h =
    rw (map-append (λ x. x.id) tabs (tab ∷ []))
      (IsDistinct-append_one (map (λ x. x.id) tabs) tab.id (includes-map-id tabs tab.id ∙ n) h)

with_tab-IsDistinct :
    (tabs : List EditorTab) (tab : EditorTab)
    → IsDistinct (map (λ x. x.id) tabs)
    → IsDistinct (map (λ x. x.id) (with_tab tabs tab))
unfolding with_tab
with_tab-IsDistinct tabs tab h = elim (Bool-cases (is_open tabs tab.id)) [
  | inl e ↦ rw e h
  | inr e ↦ rw e (append-IsDistinct tabs tab e h)
]

add_tab-Fits :
    (tabs : List EditorTab) (ws : ℕ) (n : LayoutNode) (group_id t : String)
    → is_listed tabs ws t ≡ true
    → Fits tabs ws n
    → Fits tabs ws (add_tab n group_id t none)
unfolding add_tab
add_tab-Fits tabs ws n group_id t l f = record {
  sound = add_tab-IsSound n group_id t none f.sound;
  listed =
      All-map_groups (IsListedGroup tabs ws) _
        (λ g. add_tab_to-IsListedGroup tabs ws group_id t none g l) n f.listed;
}

set_active-Fits :
    (tabs : List EditorTab) (ws : ℕ) (n : LayoutNode) (t : String)
    → Fits tabs ws n
    → Fits tabs ws (set_active n t)
unfolding set_active
set_active-Fits tabs ws n t f = record {
  sound = set_active-IsSound n t f.sound;
  listed = All-map_groups (IsListedGroup tabs ws) _ (activate-IsListedGroup tabs ws t) n f.listed;
}

show_in_place-IsValid :
    (s : IdeState) (tab : EditorTab) (n : LayoutNode) (group_id : String)
    → IsOwn s.tabs tab
    → Fits s.tabs tab.workspace_id n
    → IsValid s
    → IsValid (show_in_place s tab n group_id)
unfolding show_in_place
show_in_place-IsValid s tab n group_id own f v =
    let tabs = with_tab s.tabs tab in
    let ws = tab.workspace_id in
    record {
      layouts =
          AllFit-insert tabs s.layout ws _
            (AllFit-tabs s.tabs tabs s.layout (is_listed-with_tab s.tabs tab) v.layouts)
            (set_active-Fits tabs ws _ tab.id (
              add_tab-Fits tabs ws n group_id tab.id (is_listed-with_tab_self s.tabs tab own)
                (Fits-tabs s.tabs tabs ws n (is_listed-with_tab s.tabs tab ws) f)));
      distinct = with_tab-IsDistinct s.tabs tab v.distinct;
    }

not_blank-is_empty : (n : LayoutNode) → is_blank n ≡ false → is_empty_group n ≡ false
unfolding is_blank is_empty_group all_groups
not_blank-is_empty (group g) h = ground arith
not_blank-is_empty (split s cs) h = refl

pub new_pane-IsListedGroup :
    (tabs : List EditorTab) (ws : ℕ) (new_id t : String)
    → is_listed tabs ws t ≡ true
    → IsListedGroup tabs ws (create_group new_id (t ∷ []) (some t))
unfolding create_group
new_pane-IsListedGroup tabs ws new_id t l u i =
    let p : t ≡ u = ground (arith, eq_iff t u) in subst (λ w. is_listed tabs ws w ≡ true) p l

pub place_tab_at_edge-Fits :
    (tabs : List EditorTab) (ws : ℕ) (n : LayoutNode) (t : String) (side : Side) (new_id : String)
    → is_listed tabs ws t ≡ true
    → is_empty_group n ≡ false
    → Fits tabs ws n
    → Fits tabs ws (place_tab_at_edge n t side new_id)
unfolding place_tab_at_edge create_group
place_tab_at_edge-Fits tabs ws n t side new_id l e f = record {
  sound = place_tab_at_edge-IsSound n t side new_id e f.sound;
  listed = rw (all_groups-place_at n _ side) (
      at_end-All (IsListedGroup tabs ws) side _ (all_groups n)
        (new_pane-IsListedGroup tabs ws new_id t l) f.listed);
}

show_to_side-IsValid :
    (s : IdeState) (tab : EditorTab) (n : LayoutNode) (new_id : String)
    → IsOwn s.tabs tab
    → is_empty_group n ≡ false
    → Fits s.tabs tab.workspace_id n
    → IsValid s
    → IsValid (show_to_side s tab n new_id)
unfolding show_to_side
show_to_side-IsValid s tab n new_id own e f v =
    let tabs = with_tab s.tabs tab in
    let ws = tab.workspace_id in
    record {
      layouts =
          AllFit-insert tabs s.layout ws _
            (AllFit-tabs s.tabs tabs s.layout (is_listed-with_tab s.tabs tab) v.layouts)
            (place_tab_at_edge-Fits tabs ws n tab.id Side.right new_id
              (is_listed-with_tab_self s.tabs tab own) e
              (Fits-tabs s.tabs tabs ws n (is_listed-with_tab s.tabs tab ws) f));
      distinct = with_tab-IsDistinct s.tabs tab v.distinct;
    }

add_quietly-IsValid :
    (s : IdeState) (tab : EditorTab) (n : LayoutNode) (group_id : String)
    → is_open s.tabs tab.id ≡ false
    → Fits s.tabs tab.workspace_id n
    → IsValid s
    → IsValid (add_quietly s tab n group_id)
unfolding add_quietly
add_quietly-IsValid s tab n group_id o f v =
    let tabs = s.tabs ++ tab ∷ [] in
    let ws = tab.workspace_id in
    record {
      layouts =
          AllFit-insert tabs s.layout ws _
            (AllFit-tabs s.tabs tabs s.layout (is_listed-append s.tabs tab) v.layouts)
            (add_tab-Fits tabs ws n group_id tab.id (is_listed-append_self s.tabs tab)
              (Fits-tabs s.tabs tabs ws n (is_listed-append s.tabs tab ws) f));
      distinct = append-IsDistinct s.tabs tab o v.distinct;
    }

-- Opening a tab, to the side or in place, and ensuring one, succeed on a valid store and keep it so.
module _ (s : IdeState) (tab : EditorTab) (new_id : String) (own : IsOwn s.tabs tab)
    (v : IsValid s) where
  pub open_tab-IsValid : (r : IdeState) × (open_tab s tab new_id ≡ some r) × IsValid r
  unfolding open_tab
  open_tab-IsValid =
      let (n, id, e, f) = ensure_workspace_layout-Fits s tab.workspace_id new_id v in
      (show_in_place s tab n id, rw (e, open_tab), show_in_place-IsValid s tab n id own f v)

  pub open_tab_to_side-IsValid :
      (r : IdeState) × (open_tab_to_side s tab new_id ≡ some r) × IsValid r
  unfolding open_tab_to_side
  open_tab_to_side-IsValid =
      let (n, id, e, f) = ensure_workspace_layout-Fits s tab.workspace_id new_id v in
      elim (Bool-cases (is_blank n)) [
        | inl b ↦ (
          show_in_place s tab n id,
          rw (e, open_tab_to_side, b),
          show_in_place-IsValid s tab n id own f v,
        )
        | inr b ↦ (
          show_to_side s tab n new_id,
          rw (e, open_tab_to_side, b),
          show_to_side-IsValid s tab n new_id own (not_blank-is_empty n b) f v,
        )
      ]

  pub ensure_tab-IsValid : (r : IdeState) × (ensure_tab s tab new_id ≡ some r) × IsValid r
  unfolding ensure_tab
  ensure_tab-IsValid = elim (Bool-cases (is_open s.tabs tab.id)) [
    | inl o ↦ (s, rw o, v)
    | inr o ↦
        let (n, id, e, f) = ensure_workspace_layout-Fits s tab.workspace_id new_id v in
        (add_quietly s tab n id, rw (o, e), add_quietly-IsValid s tab n id o f v)
  ]
