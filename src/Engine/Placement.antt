-- ===== src/Engine/Placement.antt =====
-- internal/engine/loop.go: the list of a loop's instances, as control and removeRule change it.
use riemann_go.Base.{
  Option, none, some, List, [], ◌∷◌, ◌++◌, String, str_eq, compare_str, if◌then◌else◌,
}
use riemann_go.Rule.{Instance}
use text.Mathlib.Text.{is_lt}

module _ {F Pr : Type 0} where
  -- Instances by ascending id
  unfoldable pub insert_rule : Instance F Pr → List (Instance F Pr) → List (Instance F Pr)
  insert_rule i [] = i ∷ []
  insert_rule i (r ∷ rs) =
      if is_lt (compare_str i.c.id r.c.id) then i ∷ r ∷ rs else r ∷ insert_rule i rs

  -- sort.Slice, for which any sort of distinct ids may stand
  unfoldable pub sort_rules : List (Instance F Pr) → List (Instance F Pr)
  unfolding insert_rule
  sort_rules [] = []
  sort_rules (r ∷ rs) = insert_rule r (sort_rules rs)

  -- removeRule takes the first instance of the id.
  unfoldable pub remove_rule : String → List (Instance F Pr) → List (Instance F Pr)
  remove_rule id [] = []
  remove_rule id (r ∷ rs) = if str_eq r.c.id id then rs else r ∷ remove_rule id rs

  unfoldable pub replace_rule : Instance F Pr → List (Instance F Pr) → Option (List (Instance F Pr))
  replace_rule i [] = none
  replace_rule i (r ∷ rs) =
      if str_eq r.c.id i.c.id
      then some (i ∷ rs)
      else elim (replace_rule i rs) [ none ↦ none | some rs' ↦ some (r ∷ rs') ]

  -- What control does with the list of instances when a rule belongs to the loop.
  unfoldable pub place_rule : Instance F Pr → List (Instance F Pr) → List (Instance F Pr)
  unfolding replace_rule sort_rules
  place_rule i rs = elim (replace_rule i rs) [ some rs' ↦ rs' | none ↦ sort_rules (rs ++ i ∷ []) ]
