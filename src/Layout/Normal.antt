-- ===== src/Layout/Normal.antt =====
-- The shape of a layout: what `normalize` establishes and every operation keeps.
use sqlwarden.Common.{
  ◌≡◌, refl, ap, Bool, true, false, not, List, ◌++◌, ◌==◌, length, filter, Bool-cases, inl, inr,
  arith, ap, append-nil, All, ◌∙◌, filter-append, sym, All-append, ap₂, nat_eq,
}
use sqlwarden.Layout.Tree.{
  GroupNode, SplitHead, LayoutNode, group, split, Forest, nil, cons, all_groups, all_groups_in,
  map_groups, map_groups_in, normalize, normalize_each, keep_full, collapse, is_empty_group,
}

-- Every split has two children at least, and no child is an empty group.
abbrev mutual
  pub IsNormal : LayoutNode → Type 0
  IsNormal (group g) = Unit
  IsNormal (split s nil) = ⊥
  IsNormal (split s (cons c nil)) = ⊥
  IsNormal (split s (cons c (cons d ds))) = AreFull (cons c (cons d ds))

  pub AreFull : Forest → Type 0
  AreFull nil = Unit
  AreFull (cons c cs) = (is_empty_group c ≡ false) × IsNormal c × AreFull cs

abbrev AreNormal : Forest → Type 0
AreNormal nil = Unit
AreNormal (cons c cs) = IsNormal c × AreNormal cs

abbrev pub has_tabs : GroupNode → Bool
has_tabs g = not (length g.tab_ids == 0)

collapse-IsNormal :
    (s : SplitHead) (gs : List GroupNode) (cs : Forest) → AreFull cs → IsNormal (collapse s gs cs)
unfolding collapse
collapse-IsNormal s gs nil h = tt
collapse-IsNormal s gs (cons c nil) h = h.1
collapse-IsNormal s gs (cons c (cons d ds)) h = h

keep_full-AreFull : (cs : Forest) → AreNormal cs → AreFull (keep_full cs)
unfolding keep_full
keep_full-AreFull nil h = tt
keep_full-AreFull (cons c cs) (p, h) = elim (Bool-cases (is_empty_group c)) [
  | inl e ↦ rw e (keep_full-AreFull cs h)
  | inr e ↦ rw e (e, p, keep_full-AreFull cs h)
]

mutual
  unfolding normalize

  normalize-IsNormal_lem : (n : LayoutNode) → IsNormal (normalize n)
  normalize-IsNormal_lem (group g) = tt
  normalize-IsNormal_lem (split s cs) =
      collapse-IsNormal s _ _ (keep_full-AreFull _ (normalize_each-AreNormal cs))

  normalize_each-AreNormal : (cs : Forest) → AreNormal (normalize_each cs)
  normalize_each-AreNormal nil = tt
  normalize_each-AreNormal (cons c cs) = (normalize-IsNormal_lem c, normalize_each-AreNormal cs)

keep_full_of_AreFull : (cs : Forest) → AreFull cs → keep_full cs ≡ cs
unfolding keep_full
keep_full_of_AreFull nil h = refl
keep_full_of_AreFull (cons c cs) (e, p, h) = rw e (ap (cons c) (keep_full_of_AreFull cs h))

mutual
  unfolding normalize collapse

  normalize_of_IsNormal_lem : (n : LayoutNode) → IsNormal n → normalize n ≡ n
  normalize_of_IsNormal_lem (group g) h = refl
  normalize_of_IsNormal_lem (split s nil) h = elim h [ ]
  normalize_of_IsNormal_lem (split s (cons c nil)) h = elim h [ ]
  normalize_of_IsNormal_lem (split s (cons c (cons d ds))) h =
      ap (collapse s (all_groups_in (cons c (cons d ds)))) (
        ap keep_full (normalize_each_of_AreFull (cons c (cons d ds)) h)
        ∙ keep_full_of_AreFull (cons c (cons d ds)) h)

  normalize_each_of_AreFull : (cs : Forest) → AreFull cs → normalize_each cs ≡ cs
  normalize_each_of_AreFull nil h = refl
  normalize_each_of_AreFull (cons c cs) (e, p, h) =
      ap₂ cons (normalize_of_IsNormal_lem c p) (normalize_each_of_AreFull cs h)

pub normalize_of_IsNormal : (n : LayoutNode) → IsNormal n → normalize n ≡ n
normalize_of_IsNormal n h = normalize_of_IsNormal_lem n h

-- The result of `normalize` has no empty pane beside another one and no split with fewer than two
-- children, and a second call changes nothing.
pub normalize-IsNormal :
    (n : LayoutNode) → IsNormal (normalize n) × (normalize (normalize n) ≡ normalize n)
normalize-IsNormal n =
    (normalize-IsNormal_lem n, normalize_of_IsNormal (normalize n) (normalize-IsNormal_lem n))

filter-keep_full :
    (cs : Forest)
    → filter has_tabs (all_groups_in (keep_full cs)) ≡ filter has_tabs (all_groups_in cs)
unfolding keep_full all_groups is_empty_group
filter-keep_full nil = refl
filter-keep_full (cons (group g) cs) = ground (arith, filter-keep_full cs)
filter-keep_full (cons (split s ds) cs) =
    filter-append has_tabs (all_groups_in ds) _
    ∙ ap (◌++◌ (filter has_tabs (all_groups_in ds))) (filter-keep_full cs)
    ∙ sym (filter-append has_tabs (all_groups_in ds) _)

filter-collapse :
    (s : SplitHead) (gs : List GroupNode) (cs : Forest)
    → filter has_tabs (all_groups (collapse s gs cs)) ≡ filter has_tabs (all_groups_in cs)
unfolding collapse all_groups
filter-collapse s gs nil = refl
filter-collapse s gs (cons c nil) = ap (filter has_tabs) (sym (append-nil (all_groups c)))
filter-collapse s gs (cons c (cons d ds)) = refl

mutual
  unfolding normalize all_groups

  filter-normalize_lem :
      (n : LayoutNode) → filter has_tabs (all_groups (normalize n)) ≡ filter has_tabs (all_groups n)
  filter-normalize_lem (group g) = refl
  filter-normalize_lem (split s cs) =
      filter-collapse s (all_groups_in cs) (keep_full (normalize_each cs))
      ∙ filter-keep_full (normalize_each cs)
      ∙ filter-normalize_each cs

  filter-normalize_each :
      (cs : Forest)
      → filter has_tabs (all_groups_in (normalize_each cs)) ≡ filter has_tabs (all_groups_in cs)
  filter-normalize_each nil = refl
  filter-normalize_each (cons c cs) =
      filter-append has_tabs (all_groups (normalize c)) _
      ∙ ap₂ ◌++◌ (filter-normalize_lem c) (filter-normalize_each cs)
      ∙ sym (filter-append has_tabs (all_groups c) _)

-- `normalize` keeps the panes that hold tabs, with their tabs and in their order.
pub filter-normalize :
    (n : LayoutNode) → filter has_tabs (all_groups (normalize n)) ≡ filter has_tabs (all_groups n)
filter-normalize n = filter-normalize_lem n

-- A function that leaves no group without tabs keeps the shape.
module _ (f : GroupNode → GroupNode)
    (keeps : (g : GroupNode) → has_tabs g ≡ true → has_tabs (f g) ≡ true) where
  is_empty-map_groups :
      (n : LayoutNode) → is_empty_group n ≡ false → is_empty_group (map_groups f n) ≡ false
  unfolding is_empty_group map_groups
  is_empty-map_groups (group g) e = ground (arith, keeps g)
  is_empty-map_groups (split s cs) e = refl

  mutual
    unfolding map_groups

    map_groups-IsNormal_lem : (n : LayoutNode) → IsNormal n → IsNormal (map_groups f n)
    map_groups-IsNormal_lem (group g) h = tt
    map_groups-IsNormal_lem (split s nil) h = elim h [ ]
    map_groups-IsNormal_lem (split s (cons c nil)) h = elim h [ ]
    map_groups-IsNormal_lem (split s (cons c (cons d ds))) h =
        map_groups-AreFull (cons c (cons d ds)) h

    map_groups-AreFull : (cs : Forest) → AreFull cs → AreFull (map_groups_in f cs)
    map_groups-AreFull nil h = tt
    map_groups-AreFull (cons c cs) (e, p, h) =
        (is_empty-map_groups c e, map_groups-IsNormal_lem c p, map_groups-AreFull cs h)

  pub map_groups-IsNormal : (n : LayoutNode) → IsNormal n → IsNormal (map_groups f n)
  map_groups-IsNormal n h = map_groups-IsNormal_lem n h

mutual
  unfolding all_groups is_empty_group

  AreFull-tabs_lem : (cs : Forest) → AreFull cs → All (λ g. has_tabs g ≡ true) (all_groups_in cs)
  AreFull-tabs_lem nil h = tt
  AreFull-tabs_lem (cons c cs) (e, p, h) =
      All-append _ (all_groups c) _ (IsNormal-tabs_lem c e p) (AreFull-tabs_lem cs h)

  IsNormal-tabs_lem :
      (n : LayoutNode)
      → is_empty_group n ≡ false
      → IsNormal n
      → All (λ g. has_tabs g ≡ true) (all_groups n)
  IsNormal-tabs_lem (group g) e h = (ground arith, tt)
  IsNormal-tabs_lem (split s nil) e h = elim h [ ]
  IsNormal-tabs_lem (split s (cons c nil)) e h = elim h [ ]
  IsNormal-tabs_lem (split s (cons c (cons d ds))) e h = AreFull-tabs_lem (cons c (cons d ds)) h

-- No pane of a normal layout with a split is empty.
pub AreFull-tabs : (cs : Forest) → AreFull cs → All (λ g. has_tabs g ≡ true) (all_groups_in cs)
AreFull-tabs cs h = AreFull-tabs_lem cs h
