-- ===== src/Layout/Shown.antt =====
-- Which tabs a layout shows after the operations that close, open and move them.
use sqlwarden.Common.{
  ◌≡◌, refl, ap, ◌∙◌, Bool, true, false, not, ◌&&◌, ◌||◌, List, [], ◌∷◌, some, String,
  if◌then◌else◌, arith, any, includes, map, ◌==◌, string_eq, includes-without, eq_iff,
  includes-insert_at, option_eq, without,
}
use sqlwarden.Layout.Tree.{GroupNode, LayoutNode, all_groups, map_groups}
use sqlwarden.Layout.Tabs.{
  remove_tab, remove_tab_in, moved, land_tab, lift_tab, Position, remove_tab_from,
  remove_tab_from_group, drop_tab, drop_index,
}
use sqlwarden.Layout.Flat.{
  shows, shows-normalize, all_groups-map_groups, any-normalize, includes-has_tabs,
}

pub remove_tab_in-includes :
    (t : String) (g : GroupNode) (u : String)
    → includes (remove_tab_in t g).tab_ids u ≡ (if u == t then false else includes g.tab_ids u)
unfolding remove_tab_in drop_tab
remove_tab_in-includes t g u = ground (arith, includes-without t g.tab_ids u, eq_iff u t)

any-remove_tab_in :
    (t : String) (gs : List GroupNode) (u : String)
    → any (λ g. includes g.tab_ids u) (map (remove_tab_in t) gs)
      ≡ (if u == t then false else any (λ g. includes g.tab_ids u) gs)
any-remove_tab_in t [] u = ground arith
any-remove_tab_in t (g ∷ gs) u =
    ground (arith, remove_tab_in-includes t g u, any-remove_tab_in t gs u)

-- After `removeTab` no pane shows the tab, and every other tab is shown as it was.
pub shows-remove_tab :
    (n : LayoutNode) (t u : String)
    → shows (remove_tab n t) u ≡ (if u == t then false else shows n u)
unfolding remove_tab
shows-remove_tab n t u =
    shows-normalize (map_groups (remove_tab_in t) n) u
    ∙ ap (any (λ g. includes g.tab_ids u)) (all_groups-map_groups (remove_tab_in t) n)
    ∙ any-remove_tab_in t (all_groups n) u

pub remove_tab_from-includes :
    (group_id t : String) (g : GroupNode) (u : String)
    → includes (remove_tab_from group_id t g).tab_ids u
      ≡ (if u == t && g.id == group_id then false else includes g.tab_ids u)
unfolding remove_tab_from drop_tab
remove_tab_from-includes group_id t g u = ground (arith, includes-without t g.tab_ids u, eq_iff u t)

-- Some other pane shows the tab.
abbrev pub shows_outside : List GroupNode → String → String → Bool
shows_outside gs group_id u = any (λ g. not (g.id == group_id) && includes g.tab_ids u) gs

any-remove_tab_from :
    (group_id t : String) (gs : List GroupNode) (u : String)
    → any (λ g. includes g.tab_ids u) (map (remove_tab_from group_id t) gs)
      ≡ (if u == t then shows_outside gs group_id u else any (λ g. includes g.tab_ids u) gs)
any-remove_tab_from group_id t [] u = ground arith
any-remove_tab_from group_id t (g ∷ gs) u =
    ground (arith, remove_tab_from-includes group_id t g u, any-remove_tab_from group_id t gs u)

-- After `removeTabFromGroup` the tab is shown exactly if a pane with another id showed it, and every
-- other tab is shown as it was.
pub shows-remove_tab_from_group :
    (n : LayoutNode) (group_id t u : String)
    → shows (remove_tab_from_group n group_id t) u
      ≡ (if u == t then shows_outside (all_groups n) group_id u else shows n u)
unfolding remove_tab_from_group
shows-remove_tab_from_group n group_id t u =
    shows-normalize (map_groups (remove_tab_from group_id t) n) u
    ∙ ap (any (λ g. includes g.tab_ids u)) (all_groups-map_groups (remove_tab_from group_id t) n)
    ∙ any-remove_tab_from group_id t (all_groups n) u

pub lift_tab-includes :
    (from_id t : String) (g : GroupNode) (u : String)
    → includes (lift_tab from_id t g).tab_ids u
      ≡ (if u == t && g.id == from_id then false else includes g.tab_ids u)
unfolding lift_tab
lift_tab-includes from_id t g u = ground (arith, includes-without t g.tab_ids u, eq_iff u t)

lift_tab-id : (from_id t : String) (g : GroupNode) → (lift_tab from_id t g).id ≡ g.id
unfolding lift_tab
lift_tab-id from_id t g = ground arith

pub land_tab-includes :
    (to_id t target : String) (position : Position) (g : GroupNode) (u : String)
    → includes (land_tab to_id t target position g).tab_ids u
      ≡ (if u == t && g.id == to_id then true else includes g.tab_ids u)
unfolding land_tab
land_tab-includes to_id t target position g u = ground (
  arith,
  includes-insert_at (drop_index (without t g.tab_ids) target position) t (without t g.tab_ids) u,
  includes-without t g.tab_ids u,
  eq_iff u t,
  eq_iff t u,
)

module _ (from_id t to_id target : String) (position : Position) where
  abbrev relocate : GroupNode → GroupNode
  relocate g = land_tab to_id t target position (lift_tab from_id t g)

  relocate-includes :
      (g : GroupNode) (u : String)
      → includes (relocate g).tab_ids u ≡ (
          if u == t
          then g.id == to_id || (not (g.id == from_id) && includes g.tab_ids u)
          else includes g.tab_ids u)
  relocate-includes g u = ground (
    arith,
    land_tab-includes to_id t target position (lift_tab from_id t g) u,
    lift_tab-includes from_id t g u,
    lift_tab-id from_id t g,
  )

  all_groups-relocate :
      (n : LayoutNode)
      → all_groups
          (map_groups (land_tab to_id t target position) (map_groups (lift_tab from_id t) n))
        ≡ map relocate (all_groups n)
  all_groups-relocate n =
      all_groups-map_groups (land_tab to_id t target position) (map_groups (lift_tab from_id t) n)
      ∙ ap (map (land_tab to_id t target position)) (all_groups-map_groups (lift_tab from_id t) n)
      ∙ map-map-relocate (all_groups n)
    where
      map-map-relocate :
          (gs : List GroupNode)
          → map (land_tab to_id t target position) (map (lift_tab from_id t) gs) ≡ map relocate gs
      map-map-relocate [] = refl
      map-map-relocate (g ∷ gs) = ap (λ xs. relocate g ∷ xs) (map-map-relocate gs)

  any-relocate :
      (gs : List GroupNode) (u : String)
      → any (λ g. includes g.tab_ids u) (map relocate gs) ≡ (
          if u == t
          then any (λ g. g.id == to_id) gs || shows_outside gs from_id u
          else any (λ g. includes g.tab_ids u) gs)
  any-relocate [] u = ground arith
  any-relocate (g ∷ gs) u = ground (arith, relocate-includes g u, any-relocate gs u)

  -- After a move the tab is shown exactly if the target pane exists or a pane with another id than the
  -- source's showed it, and every other tab is shown as it was.
  pub shows-moved :
      (n : LayoutNode) (u : String)
      → shows (moved n from_id t to_id target position) u ≡ (
          if u == t
          then any (λ g. g.id == to_id) (all_groups n) || shows_outside (all_groups n) from_id u
          else shows n u)
  unfolding moved
  shows-moved n u =
      shows-normalize _ u
      ∙ ap (any (λ g. includes g.tab_ids u)) (all_groups-relocate n)
      ∙ any-relocate (all_groups n) u

  abbrev holds_active : GroupNode → Bool
  holds_active g = g.id == to_id && includes g.tab_ids t && g.active_tab_id == some t

  land_tab-active :
      (g : GroupNode)
      → ((land_tab to_id t target position g).id ≡ g.id)
        × ((g.id == to_id) ≡ true → (land_tab to_id t target position g).active_tab_id ≡ some t)
  unfolding land_tab
  land_tab-active g = (ground arith, λ h. ground arith)

  holds_active-relocate : (g : GroupNode) → holds_active (relocate g) ≡ (g.id == to_id)
  holds_active-relocate g = ground (
    arith,
    relocate-includes g t,
    land_tab-active (lift_tab from_id t g),
    lift_tab-id from_id t g,
    eq_iff t t,
  )

  any-holds_active :
      (gs : List GroupNode) → any holds_active (map relocate gs) ≡ any (λ g. g.id == to_id) gs
  any-holds_active [] = refl
  any-holds_active (g ∷ gs) = ground (arith, holds_active-relocate g, any-holds_active gs)

  -- After a move a pane with the target's id holds the tab as its active one, exactly if the layout
  -- had a pane with that id.
  any-holds_active-moved :
      (n : LayoutNode)
      → any holds_active (all_groups (moved n from_id t to_id target position))
        ≡ any (λ g. g.id == to_id) (all_groups n)
  unfolding moved
  any-holds_active-moved n =
      any-normalize holds_active (λ g h. includes-has_tabs t g (ground arith)) _
      ∙ ap (any holds_active) (all_groups-relocate n)
      ∙ any-holds_active (all_groups n)
