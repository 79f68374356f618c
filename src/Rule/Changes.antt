-- ===== src/Rule/Changes.antt =====
-- The changed-state node: a run of its events, against a description by neighbours.
use riemann_go.Base.{
  eq_iff, ◌≡◌, refl, none, some, List, [], ◌∷◌, String, str_eq, if◌then◌else◌, arith,
}
use riemann_go.Base.Float.{Float}
use riemann_go.Event.{Event}
use riemann_go.Rule.Steps.{changed_step}

module _ {F : Type 0} ⦃fl : Float F⦄ where
  -- The events that pass, each with the prior state of its frame.
  unfoldable pub passed_changes : String → List (Event F) → List (String × Event F)
  passed_changes prev [] = []
  passed_changes prev (ev ∷ evs) =
      let (prev', prior) = changed_step prev ev in
      let rest = passed_changes prev' evs in elim prior [ none ↦ rest | some p ↦ (p, ev) ∷ rest ]

  -- Each event with the state of the event before it.
  unfoldable pub neighbours : String → List (Event F) → List (String × Event F)
  neighbours prev [] = []
  neighbours prev (ev ∷ evs) = (prev, ev) ∷ neighbours ev.state evs

  unfoldable pub differing : List (String × Event F) → List (String × Event F)
  differing [] = []
  differing ((p, ev) ∷ ps) = if str_eq ev.state p then differing ps else (p, ev) ∷ differing ps

  pub changed_step-differing :
      (initial : String) (evs : List (Event F))
      → passed_changes initial evs ≡ differing (neighbours initial evs)
  unfolding passed_changes neighbours differing changed_step
  changed_step-differing initial [] = refl
  changed_step-differing initial (ev ∷ evs) = ground (
    arith,
    changed_step-differing ev.state evs,
    changed_step-differing initial evs,
    eq_iff ev.state initial,
  )
