-- ===== src/Layout/Flat.antt =====
-- A layout seen as the list of its panes, from left to right.
use sqlwarden.Common.{
  ◌≡◌, refl, sym, ap, ◌∙◌, Bool, List, [], ◌∷◌, ◌++◌, none, some, String, filter, any, includes,
  arith, All, map, All-append, string_eq, All-append_left, Bool-cases, ap₂, All-map, inl,
  All-append_right, map-append, inr, nat_eq, true, length-includes,
}
use sqlwarden.Layout.Tree.{
  GroupNode, SplitHead, LayoutNode, group, split, Forest, nil, cons, all_groups, all_groups_in,
  map_groups, map_groups_in, normalize, normalize_each, keep_full, collapse, is_empty_group,
  create_group, first_group,
}
use sqlwarden.Common.{nat_eq}
use sqlwarden.Layout.Normal.{has_tabs, filter-normalize, IsNormal}

module _ (f : GroupNode → GroupNode) where
  mutual
    unfolding all_groups map_groups

    all_groups-map_groups_lem :
        (n : LayoutNode) → all_groups (map_groups f n) ≡ map f (all_groups n)
    all_groups-map_groups_lem (group g) = refl
    all_groups-map_groups_lem (split s cs) = all_groups-map_groups_in cs

    all_groups-map_groups_in :
        (cs : Forest) → all_groups_in (map_groups_in f cs) ≡ map f (all_groups_in cs)
    all_groups-map_groups_in nil = refl
    all_groups-map_groups_in (cons c cs) =
        ap₂ ◌++◌ (all_groups-map_groups_lem c) (all_groups-map_groups_in cs)
        ∙ sym (map-append f (all_groups c) (all_groups_in cs))

  pub all_groups-map_groups : (n : LayoutNode) → all_groups (map_groups f n) ≡ map f (all_groups n)
  all_groups-map_groups n = all_groups-map_groups_lem n

-- What holds of every pane, and of an empty one, survives `normalize`.
module _ {ℓ} (P : GroupNode → Type ℓ) (bare : (id : String) → P (create_group id [] none)) where
  All-keep_full : (cs : Forest) → All P (all_groups_in cs) → All P (all_groups_in (keep_full cs))
  unfolding keep_full all_groups
  All-keep_full nil h = tt
  All-keep_full (cons c cs) h = elim (Bool-cases (is_empty_group c)) [
    | inl e ↦ rw e (All-keep_full cs (All-append_right P (all_groups c) _ h))
    | inr e ↦ rw e (
        All-append P (all_groups c) _ (All-append_left P (all_groups c) _ h)
          (All-keep_full cs (All-append_right P (all_groups c) _ h)))
  ]

  All-collapse :
      (s : SplitHead) (gs : List GroupNode) (cs : Forest)
      → All P (all_groups_in cs)
      → All P (all_groups (collapse s gs cs))
  unfolding collapse all_groups
  All-collapse s gs nil h = (bare _, tt)
  All-collapse s gs (cons c nil) h = All-append_left P (all_groups c) [] h
  All-collapse s gs (cons c (cons d ds)) h = h

  mutual
    unfolding normalize all_groups

    All-normalize_lem : (n : LayoutNode) → All P (all_groups n) → All P (all_groups (normalize n))
    All-normalize_lem (group g) h = h
    All-normalize_lem (split s cs) h =
        All-collapse s (all_groups_in cs) _ (All-keep_full _ (All-normalize_each cs h))

    All-normalize_each :
        (cs : Forest) → All P (all_groups_in cs) → All P (all_groups_in (normalize_each cs))
    All-normalize_each nil h = tt
    All-normalize_each (cons c cs) h =
        All-append P (all_groups (normalize c)) _
          (All-normalize_lem c (All-append_left P (all_groups c) _ h))
          (All-normalize_each cs (All-append_right P (all_groups c) _ h))

  pub All-normalize : (n : LayoutNode) → All P (all_groups n) → All P (all_groups (normalize n))
  All-normalize n h = All-normalize_lem n h

module _ {ℓ} (P : GroupNode → Type ℓ) (f : GroupNode → GroupNode)
    (keeps : (g : GroupNode) → P g → P (f g)) where
  pub All-map_groups : (n : LayoutNode) → All P (all_groups n) → All P (all_groups (map_groups f n))
  All-map_groups n h = rw (all_groups-map_groups f n) (All-map P P f (all_groups n) keeps h)

-- Some pane shows the tab.
abbrev pub shows : LayoutNode → String → Bool
shows n tab_id = any (λ g. includes g.tab_ids tab_id) (all_groups n)

module _ (p : GroupNode → Bool) (full : (g : GroupNode) → p g ≡ true → has_tabs g ≡ true) where
  any-tabs : (gs : List GroupNode) → any p (filter has_tabs gs) ≡ any p gs
  any-tabs [] = refl
  any-tabs (g ∷ gs) = ground (arith, any-tabs gs, full g)

  -- What tells panes apart by their tabs does not see `normalize`.
  pub any-normalize : (n : LayoutNode) → any p (all_groups (normalize n)) ≡ any p (all_groups n)
  any-normalize n =
      sym (any-tabs (all_groups (normalize n)))
      ∙ ap (any p) (filter-normalize n)
      ∙ any-tabs (all_groups n)

pub includes-has_tabs :
    (t : String) (g : GroupNode) → includes g.tab_ids t ≡ true → has_tabs g ≡ true
includes-has_tabs t g h = ground (arith, length-includes g.tab_ids t)

-- `normalize` hides no tab and shows no other.
pub shows-normalize : (n : LayoutNode) (t : String) → shows (normalize n) t ≡ shows n t
shows-normalize n t = any-normalize (λ g. includes g.tab_ids t) (includes-has_tabs t) n

all_groups-IsNormal :
    (n : LayoutNode)
    → IsNormal n
    → (g : GroupNode) × (gs : List GroupNode) × (all_groups n ≡ g ∷ gs)
unfolding all_groups
all_groups-IsNormal (group g) h = (g, [], refl)
all_groups-IsNormal (split s nil) h = elim h [ ]
all_groups-IsNormal (split s (cons c nil)) h = elim h [ ]
all_groups-IsNormal (split s (cons c (cons d ds))) h =
    let (g, gs, e) = all_groups-IsNormal c h.1 in
    (g, gs ++ all_groups_in (cons d ds), ap (λ xs. xs ++ all_groups_in (cons d ds)) e)

-- A normal layout has a first pane.
pub first_group-IsNormal :
    (n : LayoutNode) → IsNormal n → (g : GroupNode) × (first_group n ≡ some g)
unfolding first_group
first_group-IsNormal n h = let (g, gs, e) = all_groups-IsNormal n h in (g, rw e)
