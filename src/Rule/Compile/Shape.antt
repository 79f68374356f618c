-- ===== src/Rule/Compile/Shape.antt =====
-- compile.go: what is true of every node of a compiled tree, as predicates.
use riemann_go.Base.{◌≤◌, ◌≡◌, ◌≢◌, ◌↔◌, ◌⊎◌, Bool, true, false, [], String, All}
use riemann_go.Base.Float.{Float, pos}
use riemann_go.Event.{valid_field_name}
use riemann_go.Rule.{
  Template, sink_node, where_node, by_node, changed_state_node, throttle_node, splitp_node,
  set_node, coalesce_node, ddt_node, stable_node, Templates, no_more, also, Branches, no_branch,
  branch,
}

module _ {F Pr : Type 0} where
  abbrev pub path_of : Template F Pr → String
  path_of (sink_node p _) = p
  path_of (where_node p _ _) = p
  path_of (by_node p _ _ _) = p
  path_of (changed_state_node p _ _) = p
  path_of (throttle_node p _ _ _) = p
  path_of (splitp_node p _ _) = p
  path_of (set_node p _ _) = p
  path_of (coalesce_node p _) = p
  path_of (ddt_node p _) = p
  path_of (stable_node p _ _ _) = p

  abbrev pub is_coalesce : Template F Pr → Bool
  is_coalesce (coalesce_node _ _) = true
  is_coalesce _ = false

  -- `P` holds at every node of the tree.
  unfoldable mutual
    pub AllNodes : (Template F Pr → Type 0) → Template F Pr → Type 0
    AllNodes P (sink_node p s) = P (sink_node p s)
    AllNodes P (where_node p q ts) = P (where_node p q ts) × AllKids P ts
    AllNodes P (by_node p fs b ts) = P (by_node p fs b ts) × AllKids P ts
    AllNodes P (changed_state_node p i ts) = P (changed_state_node p i ts) × AllKids P ts
    AllNodes P (throttle_node p n w ts) = P (throttle_node p n w ts) × AllKids P ts
    AllNodes P (splitp_node p bs o) = P (splitp_node p bs o) × AllBranches P bs × AllNodes P o
    AllNodes P (set_node p qs ts) = P (set_node p qs ts) × AllKids P ts
    AllNodes P (coalesce_node p ts) = P (coalesce_node p ts) × AllKids P ts
    AllNodes P (ddt_node p ts) = P (ddt_node p ts) × AllKids P ts
    AllNodes P (stable_node p d f ts) = P (stable_node p d f ts) × AllKids P ts

    pub AllKids : (Template F Pr → Type 0) → Templates F Pr → Type 0
    AllKids P no_more = Unit
    AllKids P (also t ts) = AllNodes P t × AllKids P ts

    pub AllBranches : (Template F Pr → Type 0) → Branches F Pr → Type 0
    AllBranches P no_branch = Unit
    AllBranches P (branch q t bs) = AllNodes P t × AllBranches P bs

  mutual
    unfolding AllNodes

    map_nodes :
        (P Q : Template F Pr → Type 0)
        → ((t : Template F Pr) → P t → Q t)
        → (t : Template F Pr) → AllNodes P t
        → AllNodes Q t
    map_nodes P Q g (sink_node p s) h = g _ h
    map_nodes P Q g (where_node p q ts) h = (g _ h.0, map_kids P Q g ts h.1)
    map_nodes P Q g (by_node p fs b ts) h = (g _ h.0, map_kids P Q g ts h.1)
    map_nodes P Q g (changed_state_node p i ts) h = (g _ h.0, map_kids P Q g ts h.1)
    map_nodes P Q g (throttle_node p n w ts) h = (g _ h.0, map_kids P Q g ts h.1)
    map_nodes P Q g (splitp_node p bs o) h =
        (g _ h.0, map_branches P Q g bs h.1, map_nodes P Q g o h.2)
    map_nodes P Q g (set_node p qs ts) h = (g _ h.0, map_kids P Q g ts h.1)
    map_nodes P Q g (coalesce_node p ts) h = (g _ h.0, map_kids P Q g ts h.1)
    map_nodes P Q g (ddt_node p ts) h = (g _ h.0, map_kids P Q g ts h.1)
    map_nodes P Q g (stable_node p d f ts) h = (g _ h.0, map_kids P Q g ts h.1)

    map_kids :
        (P Q : Template F Pr → Type 0)
        → ((t : Template F Pr) → P t → Q t)
        → (ts : Templates F Pr) → AllKids P ts
        → AllKids Q ts
    map_kids P Q g no_more h = tt
    map_kids P Q g (also t ts) h = (map_nodes P Q g t h.0, map_kids P Q g ts h.1)

    map_branches :
        (P Q : Template F Pr → Type 0)
        → ((t : Template F Pr) → P t → Q t)
        → (bs : Branches F Pr) → AllBranches P bs
        → AllBranches Q bs
    map_branches P Q g no_branch h = tt
    map_branches P Q g (branch q t bs) h = (map_nodes P Q g t h.0, map_branches P Q g bs h.1)

  pub AllNodes-map :
      {P Q : Template F Pr → Type 0}
      → ((t : Template F Pr) → P t → Q t)
      → (t : Template F Pr) → AllNodes P t
      → AllNodes Q t
  AllNodes-map {P} {Q} g t h = map_nodes P Q g t h

  pub AllKids-map :
      {P Q : Template F Pr → Type 0}
      → ((t : Template F Pr) → P t → Q t)
      → (ts : Templates F Pr) → AllKids P ts
      → AllKids Q ts
  AllKids-map {P} {Q} g ts h = map_kids P Q g ts h

  pub AllBranches-map :
      {P Q : Template F Pr → Type 0}
      → ((t : Template F Pr) → P t → Q t)
      → (bs : Branches F Pr) → AllBranches P bs
      → AllBranches Q bs
  AllBranches-map {P} {Q} g bs h = map_branches P Q g bs h

-- What is required of the settings of a node, by its op: a sink is one of three; by has fields, which
-- are fields of events, and is freeable exactly when all are host or service; a throttle's limit is 1
-- at least, and its window and the duration of stable are above 0; splitp has a branch; set sets a
-- field, and only fields of events.
unfoldable pub IsWellSet : {F Pr : Type 0} ⦃fl : Float F⦄ → Template F Pr → Type 0
IsWellSet (sink_node _ name) = (name ≡ "ntfy") ⊎ ((name ≡ "influx") ⊎ (name ≡ "index"))
IsWellSet (by_node _ fields freeable _) =
    (fields ≢ [])
    × All (λ f. valid_field_name f ≡ true) fields
    × ((freeable ≡ true) ↔ All (λ f. (f ≡ "host") ⊎ (f ≡ "service")) fields)
IsWellSet ⦃fl⦄ (throttle_node _ limit window _) =
    (1 ≤ limit) × (fl.fle window (fl.of_ℤ (pos 0)) ≡ false)
IsWellSet (splitp_node _ branches _) = branches ≢ no_branch
IsWellSet (set_node _ programs _) =
    (programs ≢ []) × All (λ p. valid_field_name p.0 ≡ true) programs
IsWellSet ⦃fl⦄ (stable_node _ duration field _) =
    (fl.fle duration (fl.of_ℤ (pos 0)) ≡ false) × (valid_field_name field ≡ true)
IsWellSet _ = Unit
