-- ===== src/Engine/Homing.antt =====
-- The handlers of a loop (loop.go), PutRule, DeleteRule and Admit (engine.go) keep every host's events in
-- its shard.
use riemann_go.Base.{
  ℕ, ◌≡◌, refl, sym, ◌∙◌, subst, Option, none, some, some-eq, List, [], ◌∷◌, Option-cases, ◌⊎◌, inl,
  inr, get_or, All,
}
use riemann_go.Base.Float.{Float}
use riemann_go.Event.{Event}
use riemann_go.Index.{Index, Key, Due, remove_due, pop_due}
use riemann_go.Index.Keys.{AllKeys, remove_due-AllKeys, pop_due-entries}
use riemann_go.Rule.{Vm}
use riemann_go.Engine.State.{Engine, loop_at, no_item}
use riemann_go.Engine.Routing.{shard_for}
use riemann_go.Engine.Loops.{
  try_send, forward_global, record_event, run_rules, hand_on, count_processed, dispatch,
  update_index, expire_all, expiry_event, run_timers, fire_due, take_event,
}
use riemann_go.Engine.Homes.{IsIndexOf, IsHome, IsHomed, put_loop-IsHomed, drain_firings-IsHomed}

List-cases : {A : Type 0} (xs : List A) → (xs ≡ []) ⊎ ((x : A) × (ys : List A) × (xs ≡ x ∷ ys))
List-cases [] = inl refl
List-cases (x ∷ ys) = inr (x, ys, refl)

module _ {F Pr : Type 0} ⦃fl : Float F⦄ (n : ℕ) where
  forward_global-IsHomed :
      (ev : Event F) (e : Engine F Pr) → IsHomed n e → IsHomed n (forward_global ev e)
  unfolding forward_global IsHomed
  forward_global-IsHomed ev e h = elim (Option-cases (try_send ev e.global)) [
    | inl o ↦ rw (o, forward_global) h
    | inr (g, o) ↦ rw (o, forward_global) h
  ]

  record_event-IsHomed :
      (at : Option ℕ) (ev : Event F) (e : Engine F Pr)
      → IsHomed n e
      → IsHomed n (record_event at ev e)
  unfolding record_event IsHomed IsHome
  record_event-IsHomed none ev e h = elim (Option-cases e.global.ring) [
    | inl o ↦ rw (o, record_event) h
    | inr (r, o) ↦ rw (o, record_event) h
  ]
  record_event-IsHomed (some i) ev e h = elim (Option-cases (get_or e.shards i e.global).ring) [
    | inl o ↦ rw (o, record_event) h
    | inr (r, o) ↦ rw (o, record_event) (put_loop-IsHomed n (some i) _ e h (λ i q g. g))
  ]

module _ {F Pr : Type 0} ⦃fl : Float F⦄ ⦃vm : Vm F Pr⦄ (n : ℕ) where
  run_rules-IsHomed :
      (at : Option ℕ) (now : F) (ev : Event F) (e : Engine F Pr)
      → IsHomed n e
      → IsHomed n (run_rules at now ev e)
  unfolding run_rules IsHome
  run_rules-IsHomed at now ev e h =
      drain_firings-IsHomed n at _ (put_loop-IsHomed n at _ e h (λ i q g. g))

  hand_on-IsHomed :
      (at : Option ℕ) (now : F) (ev : Event F) (e : Engine F Pr)
      → IsHomed n e
      → IsHomed n (hand_on at now ev e)
  unfolding hand_on IsHomed
  hand_on-IsHomed none now ev e h = h
  hand_on-IsHomed (some i) now ev e h = forward_global-IsHomed n ev e h

  dispatch-IsHomed :
      (at : Option ℕ) (now : F) (ev : Event F) (e : Engine F Pr)
      → IsHomed n e
      → IsHomed n (dispatch at now ev e)
  unfolding dispatch count_processed IsHome
  dispatch-IsHomed at now ev e h =
      put_loop-IsHomed n at _ _
        (hand_on-IsHomed at now ev _
          (run_rules-IsHomed at now ev _ (record_event-IsHomed n at ev e h)))
        (λ i q g. g)

  update_index-IsHomed :
      (at : Option ℕ) (change : Index F → Index F) (e : Engine F Pr)
      → ((i : ℕ) (x : Index F)
          → (loop_at at e).idx ≡ some x
          → IsIndexOf n i (some x)
          → IsIndexOf n i (some (change x)))
      → IsHomed n e
      → IsHomed n (update_index at change e)
  unfolding update_index IsHome
  update_index-IsHomed at change e k h = elim (Option-cases (loop_at at e).idx) [
    | inl o ↦ rw (o, update_index) h
    | inr (x, o) ↦
        rw (o, update_index)
          (put_loop-IsHomed n at _ e h (λ i q g. (k i x o (subst (IsIndexOf n i) o g.0), g.1)))
  ]

  expire_all-IsHomed :
      (at : Option ℕ) (now : F) (ds : List Due) (e : Engine F Pr)
      → IsHomed n e
      → IsHomed n (expire_all at now ds e)
  unfolding expire_all IsIndexOf
  expire_all-IsHomed at now [] e h = h
  expire_all-IsHomed at now (d ∷ ds) e h = expire_all-IsHomed at now ds _ (
      update_index-IsHomed at (remove_due d) _
        (λ i x o g. remove_due-AllKeys (λ (k : Key). shard_for n k.host ≡ i) d x g)
        (dispatch-IsHomed at now (expiry_event now d) e h))

  run_timers-IsHomed :
      (at : Option ℕ) (fuel : ℕ) (now : F) (e : Engine F Pr)
      → IsHomed n e
      → IsHomed n (run_timers at fuel now e)
  unfolding run_timers IsHome
  run_timers-IsHomed at fuel now e h =
      drain_firings-IsHomed n at _ (put_loop-IsHomed n at _ e h (λ i q g. g))

  pub fire_due-IsHomed :
      (at : Option ℕ) (fuel : ℕ) (now : F) (e : Engine F Pr)
      → IsHomed n e
      → IsHomed n (fire_due at fuel now e)
  unfolding fire_due IsIndexOf
  fire_due-IsHomed at fuel now e h =
      let e₁ = run_timers at fuel now e in
      let h₁ = run_timers-IsHomed at fuel now e h in
      elim (Option-cases (loop_at at e₁).idx) [
        | inl o ↦ rw (o, fire_due) h₁
        | inr (x, o) ↦
            rw (o, fire_due)
              (expire_all-IsHomed at now (pop_due no_item now x).0 _ (
                update_index-IsHomed at (λ _. (pop_due no_item now x).1) e₁
                  (λ i y p g.
                    let is = some-eq x y (sym o ∙ p) in
                    subst (AllKeys (λ (k : Key). shard_for n k.host ≡ i))
                      (sym (pop_due-entries no_item now x))
                      (subst
                        (λ (y : Index F). AllKeys (λ (k : Key). shard_for n k.host ≡ i) y.entries)
                        (sym is) g))
                  h₁))
      ]

  pub take_event-IsHomed :
      (at : Option ℕ) (fuel : ℕ) (now : F) (e : Engine F Pr)
      → IsHomed n e
      → IsHomed n (take_event at fuel now e)
  unfolding take_event IsHome
  take_event-IsHomed at fuel now e h = elim (List-cases (loop_at at e).inbox) [
    | inl o ↦ rw (o, take_event) h
    | inr (ev, rest, o) ↦
        rw (o, take_event)
          (dispatch-IsHomed at now ev _ (
            fire_due-IsHomed at fuel now _ (
              put_loop-IsHomed n at _ e h
                (λ i q g. (g.0, (subst (All (λ ev. shard_for n ev.host ≡ i)) o g.1).1)))))
  ]
