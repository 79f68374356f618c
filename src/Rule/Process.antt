-- ===== src/Rule/Process.antt =====
-- nodes.go: Offer, the Process of every node, and runtime.go: Fork.
-- A call of a Runtime's Now reads the state's clock, which stands still while one event or one timer
-- is processed. Emit appends to `emitted`: no sink acts on the state of a rule.
use riemann_go.Base.{
  ℕ, zero, suc, ◌+◌, Bool, true, ◌&&◌, Option, none, some, List, [], ◌∷◌, ◌++◌, String, str_eq, ltb,
  ◌==◌, if◌then◌else◌, length, get_elem?, set, add64, sub64,
}
use riemann_go.Base.Float.{Float, pos}
use riemann_go.Base.Assoc.{Assoc, lookup, insert, erase, string_eq}
use riemann_go.Event.{Event, env, EnvEntry, apply_field, clone, expired_state}
use riemann_go.Timers
use riemann_go.Timers.{Timer, Timers}
use riemann_go.Rule.Tree.{
  Vm, bool_of, value_of, Template, sink_node, where_node, by_node, changed_state_node,
  throttle_node, splitp_node, set_node, coalesce_node, ddt_node, stable_node, Templates, no_more,
  also, Branches, no_branch, branch, Compiled,
}
use riemann_go.Rule.Runtime.{
  Frame, Fork, ForkEntry, Throttle, Stable, Cell, forks, prev_state, window, held, prev_event,
  settling, Callback, nil_func, release_timer, passed, discarded, forks_live, forks_freed, Rt, bump,
  unbump, cell_at, write, size_of, branch_sizes,
}
use riemann_go.Rule.Steps.{
  fork_key, changed_step, throttle_step, ddt_step, coalesce_step, arm, pass_event, hold,
  hold_and_release, stable_step, first_throttle, first_stable, instantiate, instantiate_all,
}

-- `for p := f; p != nil; p = p.parent`: a fork's parent was made before it, so that its address is
-- lower, and one round more than the address is enough.
unfoldable pub along : (Fork → Fork) → ℕ → Option ℕ → List Fork → List Fork
along change zero f fs = fs
along change (suc fuel) none fs = fs
along change (suc fuel) (some a) fs = elim (get_elem? fs a) [
  | none ↦ fs
  | some p ↦ along change fuel p.parent (set fs a (change p))
]

module _ {F Pr : Type 0} where
  unfoldable pub arm_fork : Option ℕ → Rt F Pr → Rt F Pr
  unfolding along
  arm_fork f w = record w {
    fork_cells =
        along (λ p. record p { armed = add64 p.armed 1 }) (suc (length w.fork_cells)) f
          w.fork_cells;
  }

  unfoldable pub disarm_fork : Option ℕ → Rt F Pr → Rt F Pr
  unfolding along
  disarm_fork f w = record w {
    fork_cells =
        along (λ p. record p { armed = sub64 p.armed 1 }) (suc (length w.fork_cells)) f
          w.fork_cells;
  }

  abbrev pub armed_of : ℕ → Rt F Pr → ℕ
  armed_of a w = elim (get_elem? w.fork_cells a) [ none ↦ 0 | some p ↦ p.armed ]

  -- base.discard
  unfoldable pub discard : Compiled F Pr → String → ℕ → Rt F Pr → Rt F Pr
  unfolding bump
  discard c path n w = bump c discarded path n w

  unfoldable pub emit : Compiled F Pr → String → String → Event F → Frame F → Rt F Pr → Rt F Pr
  emit c sink path ev fr w = record w {
    emitted =
        w.emitted
        ++ record {
          rule = c.id;
          version = c.version;
          owner = c.owner;
          sink = sink;
          path = path;
          event = ev;
          prior_state = fr.prior_state;
        }
          ∷ [];
  }

  -- stableNode.release, over what `pass` does with an event.
  unfoldable pub deliver_all : (Event F → Rt F Pr → Rt F Pr) → List (Event F) → Rt F Pr → Rt F Pr
  deliver_all pass [] w = w
  deliver_all pass (e ∷ es) w = deliver_all pass es (pass e w)

  unfoldable pub release : (Event F → Rt F Pr → Rt F Pr) → ℕ → Stable F → Rt F Pr → Rt F Pr
  unfolding deliver_all
  release pass a s w =
      deliver_all pass s.buffer (write a (settling (record s { buffer = []; stable = true })) w)

module _ {F : Type 0} where
  fork_map : Cell F → Assoc String ForkEntry
  fork_map (forks m) = m
  fork_map _ = []

  unfoldable pub last_state : Cell F → String
  last_state (prev_state s) = s
  last_state _ = ""

  held_events : Cell F → Assoc String (Event F)
  held_events (held m) = m
  held_events _ = []

  last_event : Cell F → Option (Event F)
  last_event (prev_event e) = e
  last_event _ = none

module _ {F : Type 0} ⦃fl : Float F⦄ where
  throttle_of : Cell F → Throttle F
  throttle_of (window t) = t
  throttle_of _ = first_throttle

  unfoldable pub stable_of : Cell F → Stable F
  stable_of (settling s) = s
  stable_of _ = first_stable

module _ {F Pr : Type 0} ⦃fl : Float F⦄ where
  abbrev pub timer_zero : Timer F (Callback F Pr)
  timer_zero = record { due = fl.of_ℤ (pos 0); seq = 0; fn = nil_func }

  -- Runtime.Schedule
  unfoldable pub schedule_at : F → Callback F Pr → Rt F Pr → Rt F Pr
  schedule_at due fn w = record w { tm = Timers.schedule timer_zero due fn w.tm }

  schedule_after : F → F → Callback F Pr → Rt F Pr → Rt F Pr
  unfolding schedule_at
  schedule_after time duration fn w = schedule_at (fl.fadd time duration) fn w

  -- The fork of a key that has none yet: a new Fork below `parent`, and an instance of the children.
  unfoldable pub new_fork :
      Compiled F Pr → Option ℕ → Templates F Pr → ℕ → String → Rt F Pr → ForkEntry × Rt F Pr
  unfolding bump instantiate fork_map
  new_fork c parent ts a key w =
      let fe : ForkEntry = record { fork = length w.fork_cells; base = length w.cells } in
      (
        fe,
        bump c forks_live "" 1 (record w {
          cells =
              set w.cells a (forks (insert key fe (fork_map (cell_at w a)))) ++ instantiate_all ts;
          fork_cells = w.fork_cells ++ record { parent = parent; armed = 0 } ∷ [];
        }),
      )

  unfoldable pub find_fork :
      Compiled F Pr → Option ℕ → Templates F Pr → ℕ → String → Rt F Pr → ForkEntry × Rt F Pr
  unfolding new_fork fork_map
  find_fork c parent ts a key w = elim (lookup key (fork_map (cell_at w a))) [
    | none ↦ new_fork c parent ts a key w
    | some fe ↦ (fe, w)
  ]

  -- A fork goes once its key's expired event has passed through it and no timer below it is armed.
  unfoldable pub free_fork :
      Compiled F Pr → Bool → ℕ → String → ForkEntry → Event F → Rt F Pr → Rt F Pr
  unfolding bump unbump fork_map
  free_fork c freeable a key fe ev w =
      if freeable && str_eq ev.state expired_state && armed_of fe.fork w == 0
      then bump c forks_freed "" 1
          (unbump c forks_live "" (write a (forks (erase key (fork_map (cell_at w a)))) w))
      else w

module _ {F Pr : Type 0} ⦃fl : Float F⦄ ⦃vm : Vm F Pr⦄ where
  set_fields : Event F → List (String × Pr) → Assoc String (EnvEntry F) → Event F
  set_fields out [] e = out
  set_fields out ((name, prog) ∷ fs) e =
      set_fields (apply_field vm.sprint out name (value_of prog e)) fs e

  -- base.env
  abbrev pub env_of : Event F → Frame F → Rt F Pr → Assoc String (EnvEntry F)
  env_of ev fr w = env ev w.now fr.events

unfoldable mutual
  unfolding fork_map last_state held_events last_event throttle_of stable_of set_fields
      schedule_after

  -- The node of a template at address `a`, below the fork `f`.
  pub process :
      {F Pr : Type 0} ⦃fl : Float F⦄ ⦃vm : Vm F Pr⦄
      → Compiled F Pr
      → Option ℕ
      → Template F Pr
      → ℕ
      → Event F
      → Frame F
      → Rt F Pr
      → Rt F Pr
  process c f (sink_node path sink) a ev fr w = emit c sink path ev fr (bump c passed path 1 w)
  process c f (where_node path expr ts) a ev fr w =
      let hit = process_all c f ts (suc a) ev fr (bump c passed path 1 w) in
      if bool_of expr (env_of ev fr w) then hit else w
  process c f (by_node path fields freeable ts) a ev fr w =
      let key = fork_key fields ev in
      let (fe, w₁) = find_fork c f ts a key w in
      free_fork c freeable a key fe ev
        (process_all c (some fe.fork) ts fe.base ev fr (bump c passed path 1 w₁))
  process {F} {Pr} c f (changed_state_node path initial ts) a ev fr w =
      let (prev, prior) = changed_step (last_state (cell_at w a)) ev in
      let w₁ = write a (prev_state prev) w in
      let go : String → Rt F Pr = λ p.
        process_all c f ts (suc a) ev (record fr { prior_state = some p })
          (bump c passed path 1 w₁) in
      elim prior [ none ↦ w₁ | some p ↦ go p ]
  process c f (throttle_node path limit span ts) a ev fr w =
      let (t, passes) = throttle_step limit span (throttle_of (cell_at w a)) ev in
      let w₁ = write a (window t) w in
      let hit = process_all c f ts (suc a) ev fr (bump c passed path 1 w₁) in
      if passes then hit else discard c path 1 w₁
  process c f (splitp_node path branches otherwise) a ev fr w =
      let w₁ = bump c passed path 1 w in
      process_first c f branches (suc a) ev fr (env_of ev fr w₁)
        (process c f otherwise (suc (a + branch_sizes branches)) ev fr) w₁
  process c f (set_node path fields ts) a ev fr w =
      process_all c f ts (suc a) (set_fields (clone ev) fields (env_of ev fr w)) fr
        (bump c passed path 1 w)
  process c f (coalesce_node path ts) a ev fr w =
      let (m, set) = coalesce_step w.now (held_events (cell_at w a)) ev in
      process_all c f ts (suc a) ev (record fr { events = some set })
        (bump c passed path 1 (write a (held m) w))
  process {F} {Pr} c f (ddt_node path ts) a ev fr w =
      let (prev, out) = ddt_step (last_event (cell_at w a)) ev in
      let w₁ = write a (prev_event prev) w in
      let go : Event F → Rt F Pr = λ e. process_all c f ts (suc a) e fr (bump c passed path 1 w₁) in
      elim out [ none ↦ w₁ | some e ↦ go e ]
  process {F} {Pr} c f (stable_node path duration field ts) a ev fr w =
      let (s, action) =
        stable_step duration field c.opts.stable_buffer_capacity (stable_of (cell_at w a)) ev in
      let w₁ = write a (settling s) w in
      let pass : Event F → Rt F Pr → Rt F Pr =
        λ e w'. process_all c f ts (suc a) e fr (bump c passed path 1 w') in
      elim action [
        | arm n ↦
            schedule_after ev.time duration (release_timer c f path ts a s.gen fr)
              (arm_fork f (if ltb 0 n then discard c path n w₁ else w₁))
        | pass_event ↦ pass ev w₁
        | hold n ↦ if ltb 0 n then discard c path n w₁ else w₁
        | hold_and_release n ↦ release pass a s (if ltb 0 n then discard c path n w₁ else w₁)
      ]

  -- Every child, in array order.
  pub process_all :
      {F Pr : Type 0} ⦃fl : Float F⦄ ⦃vm : Vm F Pr⦄
      → Compiled F Pr
      → Option ℕ
      → Templates F Pr
      → ℕ
      → Event F
      → Frame F
      → Rt F Pr
      → Rt F Pr
  process_all c f no_more a ev fr w = w
  process_all c f (also t ts) a ev fr w =
      process_all c f ts (a + size_of t) ev fr (process c f t a ev fr w)

  -- The first branch whose test holds, or what `otherwise` does.
  pub process_first :
      {F Pr : Type 0} ⦃fl : Float F⦄ ⦃vm : Vm F Pr⦄
      → Compiled F Pr
      → Option ℕ
      → Branches F Pr
      → ℕ
      → Event F
      → Frame F
      → Assoc String (EnvEntry F)
      → (Rt F Pr → Rt F Pr)
      → Rt F Pr
      → Rt F Pr
  process_first c f no_branch a ev fr e otherwise w = otherwise w
  process_first c f (branch test t bs) a ev fr e otherwise w =
      let hit = process c f t a ev fr w in
      let rest = process_first c f bs (a + size_of t) ev fr e otherwise w in
      if bool_of test e then hit else rest
