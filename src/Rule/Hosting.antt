-- ===== src/Rule/Hosting.antt =====
-- nodes.go: Instance, NewInstance and Offer, the function a stable node schedules, and what a
-- Runtime's loop does with its timers.
use riemann_go.Base.{ℕ, suc, ◌&&◌, ◌||◌, not, none, ◌++◌, ◌==◌, if◌then◌else◌, length}
use riemann_go.Base.Float.{Float}
use riemann_go.Event.{Event}
use riemann_go.Timers
use riemann_go.Rule.Tree.{Vm, bool_of, Compiled}
use riemann_go.Rule.Runtime.{Frame, Callback, nil_func, release_timer, Rt, bump, cell_at, passed}
use riemann_go.Rule.Steps.{instantiate}
use riemann_go.Rule.Process.{
  disarm_fork, release, timer_zero, stable_of, env_of, process, process_all,
}

-- A live copy of a rule: the rule, and the address of its root.
pub record Instance (F Pr : Type 0) : Type 0 where
  pub c : Compiled F Pr
  pub root : ℕ

abbrev pub first_frame : {F : Type 0} → Frame F
first_frame = record { prior_state = none; events = none }

module _ {F Pr : Type 0} ⦃fl : Float F⦄ where
  unfoldable pub new_instance : Compiled F Pr → Rt F Pr → Instance F Pr × Rt F Pr
  unfolding instantiate
  new_instance c w =
      (record { c = c; root = length w.cells }, record w { cells = w.cells ++ instantiate c.root })

module _ {F Pr : Type 0} ⦃fl : Float F⦄ ⦃vm : Vm F Pr⦄ where
  -- Instance.Offer
  unfoldable pub offer : Instance F Pr → Event F → Rt F Pr → Rt F Pr
  unfolding process bool_of
  offer i ev w =
      let c = i.c in
      let fed = process c none c.root i.root ev first_frame w in
      if not c.enabled
      then w
      else if c.has_expiry && fl.flt c.expires_at w.now
      then w
      else if not (bool_of c.match (env_of ev first_frame w))
      then w
      else fed

  -- The function of a stable node's timer: it disarms its forks, and releases the buffer unless the
  -- value changed or the buffer was released since it was armed.
  unfoldable pub call_timer : Callback F Pr → Rt F Pr → Rt F Pr
  unfolding disarm_fork release process_all stable_of bump
  call_timer nil_func w = w
  call_timer (release_timer c f path ts a gen fr) w =
      let w₁ = disarm_fork f w in
      let s = stable_of (cell_at w₁ a) in
      let pass : Event F → Rt F Pr → Rt F Pr =
        λ e w'. process_all c f ts (suc a) e fr (bump c passed path 1 w') in
      let released = release pass a s w₁ in if not (gen == s.gen) || s.stable then w₁ else released

  -- timers.fireDue of a runtime
  unfoldable pub fire_timers : ℕ → F → Rt F Pr → Rt F Pr
  unfolding call_timer Timers.fire_due
  fire_timers fuel now w =
      Timers.fire_due timer_zero (λ w'. w'.tm) (λ t w'. record w' { tm = t }) call_timer fuel now w
