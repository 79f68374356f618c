-- ===== src/Rule/Alerts.antt =====
-- A changed-state node with a sink below it, the tree of an alert: what a run of events emits.
use riemann_go.Base.{
  ℕ, suc, ◌<◌, ◌≡◌, refl, ap, sym, ◌∙◌, subst, Option, none, some, List, [], ◌∷◌, ◌++◌, map, String,
  str_eq, eq_iff, if_true, if_false, arith, Bool-cases, inl, inr, length, get_or-set, length-set,
  append-nil, append_assoc, ==_refl,
}
use riemann_go.Base.Float.{Float}
use riemann_go.Event.{Event}
use riemann_go.Rule.Tree.{Vm, Template, changed_state_node, sink_node, also, no_more, Compiled}
use riemann_go.Rule.Runtime.{
  Frame, Rt, Cell, prev_state, stateless, Emitted, cell_at, write, bump, passed,
}
use riemann_go.Rule.Steps.{changed_step}
use riemann_go.Rule.Process.{process, process_all, emit, last_state}
use riemann_go.Rule.Changes.{neighbours, differing}

module _ {F Pr : Type 0} ⦃fl : Float F⦄ ⦃vm : Vm F Pr⦄ (c : Compiled F Pr)
    (path initial sink_path sink : String) (a : ℕ) (fr : Frame F) where
  abbrev pub alert : Template F Pr
  alert = changed_state_node path initial (also (sink_node sink_path sink) no_more)

  unfoldable pub process_run : List (Event F) → Rt F Pr → Rt F Pr
  process_run [] w = w
  process_run (ev ∷ evs) w = process_run evs (process c none alert a ev fr w)

  abbrev pub firing : String × Event F → Emitted F
  firing (prior, ev) = record {
    rule = c.id;
    version = c.version;
    owner = c.owner;
    sink = sink;
    path = sink_path;
    event = ev;
    prior_state = some prior;
  }

  cell_at-write :
      (cell : Cell F) (w : Rt F Pr) → a < length w.cells → cell_at (write a cell w) a ≡ cell
  cell_at-write cell w h = get_or-set w.cells a a cell stateless h ∙ if_true _ _ (==_refl a)

  -- The state after an event: its state is remembered, and it is emitted if it differs.
  record IsStep (prev : String) (ev : Event F) (w w' : Rt F Pr) : Type 0 where
    cell : cell_at w' a ≡ prev_state ev.state
    cells : length w'.cells ≡ length w.cells
    emitted : w'.emitted ≡ w.emitted ++ map firing (differing ((prev, ev) ∷ []))

  after : Event F → Rt F Pr → String × Option String → Rt F Pr
  after ev w step =
      let w₁ = write a (prev_state step.0) w in
      elim step.1 [
        | none ↦ w₁
        | some p ↦
            process_all c none (also (sink_node sink_path sink) no_more) (suc a) ev
              (record fr { prior_state = some p }) (bump c passed path 1 w₁)
      ]

  process-after :
      (prev : String) (ev : Event F) (w : Rt F Pr)
      → cell_at w a ≡ prev_state prev
      → process c none alert a ev fr w ≡ after ev w (changed_step prev ev)
  unfolding process after last_state
  process-after prev ev w q = ap (λ x. after ev w (changed_step (last_state x) ev)) q

  after-IsStep :
      (prev : String) (ev : Event F) (w : Rt F Pr)
      → a < length w.cells
      → IsStep prev ev w (after ev w (changed_step prev ev))
  unfolding after process process_all emit bump changed_step differing
  after-IsStep prev ev w h = elim (Bool-cases (str_eq ev.state prev)) [
    | inl e ↦
        subst (λ x. IsStep prev ev w (after ev w x)) (sym (if_true _ _ e))
          record {
            cell =
                cell_at-write (prev_state prev) w h
                ∙ ap prev_state (sym ((eq_iff ev.state prev).0 e));
            cells = length-set w.cells a (prev_state prev);
            emitted = rw e (sym (append-nil w.emitted));
          }
    | inr e ↦
        subst (λ x. IsStep prev ev w (after ev w x)) (sym (if_false _ _ e))
          record {
            cell = cell_at-write (prev_state ev.state) w h;
            cells = length-set w.cells a (prev_state ev.state);
            emitted = rw e refl;
          }
  ]

  map-append :
      (xs ys : List (String × Event F)) → map firing (xs ++ ys) ≡ map firing xs ++ map firing ys
  map-append [] ys = refl
  map-append (x ∷ xs) ys = ap (◌∷◌ (firing x)) (map-append xs ys)

  differing-cons :
      (p : String × Event F) (ps : List (String × Event F))
      → differing (p ∷ ps) ≡ differing (p ∷ []) ++ differing ps
  unfolding differing
  differing-cons (prev, ev) ps = ground arith

  -- Of a run of events, the sink gets exactly those whose state differs from the state of the event
  -- before, or for the first from `initial`, in order, and each with that state as its prior state.
  pub process_run-differing :
      (evs : List (Event F)) (prev : String) (w : Rt F Pr)
      → a < length w.cells
      → cell_at w a ≡ prev_state prev
      → (process_run evs w).emitted ≡ w.emitted ++ map firing (differing (neighbours prev evs))
  unfolding process_run neighbours differing
  process_run-differing [] prev w h q = sym (append-nil w.emitted)
  process_run-differing (ev ∷ evs) prev w h q =
      let w' = process c none alert a ev fr w in
      let step : IsStep prev ev w w' =
        subst (IsStep prev ev w) (sym (process-after prev ev w q)) (after-IsStep prev ev w h) in
      process_run-differing evs ev.state w' (omega (arith, step.cells)) step.cell
      ∙ ap (λ x. x ++ map firing (differing (neighbours ev.state evs))) step.emitted
      ∙ append_assoc w.emitted (map firing (differing ((prev, ev) ∷ [])))
          (map firing (differing (neighbours ev.state evs)))
      ∙ ap (λ x. w.emitted ++ x)
          (sym (map-append (differing ((prev, ev) ∷ [])) (differing (neighbours ev.state evs)))
            ∙ ap (map firing) (sym (differing-cons (prev, ev) (neighbours ev.state evs))))
