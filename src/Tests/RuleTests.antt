-- ===== src/Tests/RuleTests.antt =====
-- The theorems on the combinators, at concrete runs.
use riemann_go.Base.{◌≡◌, refl, List, [], ◌∷◌, ◌++◌, map, take, arith}
use riemann_go.Event.{Event}
use riemann_go.Rule.{
  Rt, Compiled, stable_step, first_stable, first_throttle, new_instance, first_frame, instantiate,
}
use riemann_go.Rule.Alerts.{process_run, firing, process_run-differing}
use riemann_go.Rule.Changes.{neighbours, differing}
use riemann_go.Rule.Throttling.{throttled, throttled-take}
use riemann_go.Rule.Settling.{IsSettling, first_stable-IsSettling, stable_step-IsSettling}
use riemann_go.Engine.{new_runtime}
use riemann_go.Tests.Samples.{Tick, tick, tick_float, Program, sample_vm, sample_rule, event_at}

abbrev rule : Compiled Tick Program
rule = sample_rule "disk" "h1"

abbrev runtime : Rt Tick Program
runtime = (new_instance rule new_runtime).1

abbrev run : List (Event Tick)
run = event_at "disk" "ok" 1 ∷ event_at "disk" "critical" 2 ∷ event_at "disk" "critical" 3 ∷ []

process_run-differing_example :
    (process_run rule "stream" "ok" "stream/0" "ntfy" 0 first_frame run runtime).emitted
    ≡ runtime.emitted
      ++ map
          (firing rule "stream" "ok" "stream/0" "ntfy" 0 first_frame)
          (differing (neighbours "ok" run))
unfolding new_instance instantiate
process_run-differing_example =
    process_run-differing rule "stream" "ok" "stream/0" "ntfy" 0 first_frame run "ok" runtime
      (omega arith) refl

throttled-take_example : throttled 2 (tick 10) first_throttle run ≡ take 2 run
throttled-take_example =
    throttled-take 2 (tick 10) first_throttle (event_at "disk" "ok" 1)
      (event_at "disk" "critical" 2 ∷ event_at "disk" "critical" 3 ∷ []) (omega arith) refl
      (refl, (refl, tt))

stable_step-IsSettling_example :
    IsSettling "state" 2 (stable_step (tick 5) "state" 2 first_stable (event_at "disk" "ok" 1)).0
stable_step-IsSettling_example =
    stable_step-IsSettling (tick 5) "state" 2 first_stable (event_at "disk" "ok" 1)
      (first_stable-IsSettling "state" 2)
