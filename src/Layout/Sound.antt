-- ===== src/Layout/Sound.antt =====
-- A sound pane lists each tab once and its active tab is one of them; every operation keeps all panes
-- of a layout sound, and the layout normal.
use sqlwarden.Common.{
  ◌≡◌, refl, true, false, not, List, [], ◌∷◌, Option, none, some, String, ◌==◌, length, includes,
  arith, All, eq_iff, string_eq, IsDistinct, ℕ, inl, inr, Bool-cases, without, get_elem?,
  IsDistinct-filter, get_or_else, index_of, find-without, includes-without, option_eq, Option-cases,
  IsDistinct-insert_at, index_of-includes, includes-get_elem?, includes-insert_at, get_before?,
  includes-get_before?, neighbour-without,
}
use sqlwarden.Layout.Tree.{GroupNode, LayoutNode, all_groups, create_group}
use sqlwarden.Layout.Tabs.{
  add_tab_to, drop_tab, activate, activate_in, lift_tab, land_tab, drop_index, Position, neighbour,
  remove_tab_in, remove_tab_from,
}
use sqlwarden.Layout.Normal.{IsNormal}

-- The active tab is one of the tabs; it is missing only if there are none.
abbrev pub IsSelected : List String → Option String → Type 0
IsSelected tabs none = tabs ≡ []
IsSelected tabs (some t) = includes tabs t ≡ true

pub record IsSoundGroup (g : GroupNode) : Type 0 where
  pub distinct : IsDistinct g.tab_ids
  pub selected : IsSelected g.tab_ids g.active_tab_id

pub record IsSound (n : LayoutNode) : Type 0 where
  pub normal : IsNormal n
  pub groups : All IsSoundGroup (all_groups n)

-- The new pane of a split, and of an empty workspace.
pub create_group-IsSoundGroup_empty : (id : String) → IsSoundGroup (create_group id [] none)
unfolding create_group
create_group-IsSoundGroup_empty id = record { distinct = tt; selected = refl }

pub create_group-IsSoundGroup_one :
    (id t : String) → IsSoundGroup (create_group id (t ∷ []) (some t))
unfolding create_group
create_group-IsSoundGroup_one id t = record {
  distinct = (refl, tt);
  selected = ground (arith, eq_iff t t);
}

pub add_tab_to-IsSoundGroup :
    (group_id t : String) (index : Option ℕ) (g : GroupNode)
    → IsSoundGroup g
    → IsSoundGroup (add_tab_to group_id t index g)
unfolding add_tab_to
add_tab_to-IsSoundGroup group_id t index g v = elim (Bool-cases (includes g.tab_ids t)) [
  | inl q ↦ ground arith
  | inr q ↦
      let i = get_or_else index (length g.tab_ids) in
      ground (
        arith,
        IsDistinct-insert_at i t g.tab_ids q v.distinct,
        includes-insert_at i t g.tab_ids t,
        eq_iff t t,
      )
]

neighbour-IsSelected :
    (t : String) (tabs : List String) (i : ℕ)
    → index_of tabs t ≡ some i
    → IsSelected (without t tabs) (neighbour (without t tabs) (some i))
unfolding neighbour
neighbour-IsSelected t tabs i h = elim (Option-cases (get_elem? (without t tabs) i)) [
  | inr (a, e) ↦ rw e (includes-get_elem? (without t tabs) i a e)
  | inl e ↦ elim (Option-cases (get_before? (without t tabs) i)) [
    | inr (a, f) ↦ rw (e, f) (includes-get_before? (without t tabs) i a f)
    | inl f ↦ rw (e, f) (neighbour-without t tabs i h (rw (e, f)))
  ]
]

neighbour-IsSelected_of_includes :
    (t : String) (tabs : List String)
    → includes tabs t ≡ true
    → IsSelected (without t tabs) (neighbour (without t tabs) (index_of tabs t))
neighbour-IsSelected_of_includes t tabs h =
    let (i, e) = index_of-includes tabs t h in rw e (neighbour-IsSelected t tabs i e)

-- A selection other than the removed tab stays one.
still-IsSelected :
    (t : String) (tabs : List String) (active : Option String)
    → IsSelected tabs active
    → (active == some t) ≡ false
    → IsSelected (without t tabs) active
still-IsSelected t tabs none h n = rw h
still-IsSelected t tabs (some u) h n = ground (arith, includes-without t tabs u, eq_iff u t)

drop_tab-IsSoundGroup :
    (t : String) (g : GroupNode)
    → includes g.tab_ids t ≡ true
    → IsSoundGroup g
    → IsSoundGroup (drop_tab t g)
unfolding drop_tab
drop_tab-IsSoundGroup t g h v = ground (
  arith,
  IsDistinct-filter (λ u. not (u == t)) g.tab_ids v.distinct,
  neighbour-IsSelected_of_includes t g.tab_ids h,
  still-IsSelected t g.tab_ids g.active_tab_id v.selected,
)

pub remove_tab_in-IsSoundGroup :
    (t : String) (g : GroupNode) → IsSoundGroup g → IsSoundGroup (remove_tab_in t g)
unfolding remove_tab_in
remove_tab_in-IsSoundGroup t g v = ground (arith, drop_tab-IsSoundGroup t g)

pub remove_tab_from-IsSoundGroup :
    (group_id t : String) (g : GroupNode)
    → IsSoundGroup g
    → IsSoundGroup (remove_tab_from group_id t g)
unfolding remove_tab_from
remove_tab_from-IsSoundGroup group_id t g v = ground (arith, drop_tab-IsSoundGroup t g)

pub activate-IsSoundGroup :
    (t : String) (g : GroupNode) → IsSoundGroup g → IsSoundGroup (activate t g)
unfolding activate
activate-IsSoundGroup t g v = ground arith

pub activate_in-IsSoundGroup :
    (group_id t : String) (g : GroupNode) → IsSoundGroup g → IsSoundGroup (activate_in group_id t g)
unfolding activate_in
activate_in-IsSoundGroup group_id t g v = ground arith

first-IsSelected : (tabs : List String) → IsSelected tabs (get_elem? tabs 0)
first-IsSelected [] = refl
first-IsSelected (t ∷ ts) = ground (arith, eq_iff t t)

pub lift_tab-IsSoundGroup :
    (from_id t : String) (g : GroupNode) → IsSoundGroup g → IsSoundGroup (lift_tab from_id t g)
unfolding lift_tab
lift_tab-IsSoundGroup from_id t g v = ground (
  arith,
  IsDistinct-filter (λ u. not (u == t)) g.tab_ids v.distinct,
  find-without t g.tab_ids,
  first-IsSelected (without t g.tab_ids),
  still-IsSelected t g.tab_ids g.active_tab_id v.selected,
)

pub land_tab-IsSoundGroup :
    (to_id t target : String) (position : Position) (g : GroupNode)
    → IsSoundGroup g
    → IsSoundGroup (land_tab to_id t target position g)
unfolding land_tab
land_tab-IsSoundGroup to_id t target position g v =
    let tabs = without t g.tab_ids in
    let i = drop_index tabs target position in
    ground (
      arith,
      IsDistinct-filter (λ u. not (u == t)) g.tab_ids v.distinct,
      includes-without t g.tab_ids t,
      IsDistinct-insert_at i t tabs,
      includes-insert_at i t tabs t,
      eq_iff t t,
    )
