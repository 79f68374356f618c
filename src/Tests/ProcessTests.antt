-- ===== src/Tests/ProcessTests.antt =====
-- The theorem on Stats, at a concrete engine.
use riemann_go.Base.{◌≡◌, refl}
use riemann_go.Engine.{Engine, emit_to}
use riemann_go.Engine.Stats.{Gauges, engine_stats}
use riemann_go.Engine.Accounting.{here, next, emits, Reach-residual}
use riemann_go.Tests.Samples.{
  Tick, tick, tick_float, Program, sample_params, sample_engine, event_at, firing_of,
}

abbrev gauges : Gauges Tick
gauges = record { lag = λ at. tick 0; in_flight = λ at. 0; inflight_requests = 0 }

abbrev after_firing : Engine Tick Program
after_firing = emit_to (firing_of "ntfy" (event_at "disk" "ok" 1)) sample_engine

Reach-residual_example : (engine_stats gauges after_firing).residual ≡ 0
Reach-residual_example =
    Reach-residual sample_params gauges
      (next here (emits (firing_of "ntfy" (event_at "disk" "ok" 1)) refl))
