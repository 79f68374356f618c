-- ===== src/Tests/EngineTests.antt =====
-- The theorems on the engine, at concrete engines.
use riemann_go.Base.{
  ◌<◌, ◌≡◌, refl, none, some, List, [], ◌∷◌, ◌++◌, take, keep, arith, String, str_eq, length,
  if◌then◌else◌,
}
use riemann_go.Base.Assoc.{string_eq, lookup, insert}
use riemann_go.Event.{Event, ok, expired_state}
use riemann_go.Index.{key_eq, key_of, new_index}
use riemann_go.Index.Table.{is_refused}
use riemann_go.Rule.{Compiled}
use riemann_go.Engine.{
  number_instance, Engine, Subscriber, Subscribers, new_engine, put_rule, delete_rule, admit,
  emit_to, index_lookup, no_item, store_rule, for_loops, is_same_hash, shard_for, fnv32a, utf8,
}
use riemann_go.Engine.Installed.{find_rule}
use riemann_go.Engine.Running.{IsRunning, put_rule-IsRunning, delete_rule-IsRunning}
use riemann_go.Engine.Versions.{
  IsVersioned, IsVersionedBy, put_rule-IsVersioned, put_rule-raises, last_of,
}
use riemann_go.Engine.Admission.{admit-prefix, no_wait, inbox_of, goes_to}
use riemann_go.Engine.Shedding.{publish_run, IsShed, publish_run-IsShed}
use riemann_go.Engine.Lookups.{home, index_lookup-emit_to}
use riemann_go.Tests.Samples.{
  Tick, tick, tick_lt, tick_float, Program, always, sample_vm, sample_rule, sample_engine, event_at,
  firing_of,
}

abbrev old : Compiled Tick Program
old = sample_rule "disk" "h1"

abbrev new : Compiled Tick Program
new = sample_rule "disk" "h2"

engine-IsRunning : IsRunning sample_engine
unfolding new_engine lookup find_rule
engine-IsRunning = record {
  shards = (
    record { ascending = tt; runs = λ id. refl },
    (record { ascending = tt; runs = λ id. refl }, tt),
  );
  global = record { ascending = tt; runs = λ id. refl };
}

put_rule-IsRunning_example : IsRunning (put_rule {E = String} (ok old) sample_engine).1
put_rule-IsRunning_example = put_rule-IsRunning {E = String} (ok old) sample_engine engine-IsRunning

abbrev with_rule : Engine Tick Program
with_rule = (put_rule {E = String} (ok old) sample_engine).1

with_rule-IsRunning : IsRunning with_rule
with_rule-IsRunning = put_rule-IsRunning {E = String} (ok old) sample_engine engine-IsRunning

delete_rule-IsRunning_example : IsRunning (delete_rule "disk" with_rule).1
delete_rule-IsRunning_example = delete_rule-IsRunning "disk" with_rule with_rule-IsRunning

engine-IsVersioned : IsVersioned sample_engine
unfolding new_engine lookup IsVersionedBy
engine-IsVersioned id c h = absurd (ground (arith, h))

two_shards : 0 < length sample_engine.shards
unfolding new_engine
two_shards = omega arith

admit-prefix_example :
    inbox_of 1 (admit no_wait (event_at "cpu" "ok" 1 ∷ []) sample_engine).1
    ≡ inbox_of 1 sample_engine
      ++ keep (goes_to (length sample_engine.shards) 1) (
          take
            (admit no_wait (event_at "cpu" "ok" 1 ∷ []) sample_engine).0.0
            (event_at "cpu" "ok" 1 ∷ []))
admit-prefix_example = admit-prefix (event_at "cpu" "ok" 1 ∷ []) 1 sample_engine two_shards

abbrev subscriber : Subscriber Tick Program
subscriber = record { c = []; dropped = 0; prog = some always }

abbrev subscribed : Subscribers Tick Program
subscribed = record { set = (4, subscriber) ∷ []; capacity = 1; dropped = 0 }

abbrev published : List (Event Tick × Tick)
published = (event_at "cpu" "ok" 1, tick 3) ∷ (event_at "cpu" "ok" 2, tick 4) ∷ []

publish_run-IsShed_example :
    (s : Subscriber Tick Program) × (lookup 4 (publish_run published subscribed).set ≡ some s)
    × IsShed subscribed.capacity published subscriber s
unfolding lookup
publish_run-IsShed_example =
    publish_run-IsShed 4 published subscribed subscriber refl (omega arith) (omega arith)

stored : lookup "disk" with_rule.rules ≡ some (record old { version = 1 })
unfolding put_rule store_rule for_loops is_same_hash lookup insert new_engine
stored = refl

once : last_of "disk" with_rule ≡ 1
unfolding put_rule store_rule for_loops is_same_hash lookup insert new_engine
once = refl

put_rule-raises_example :
    (c : Compiled Tick Program) × (lookup "disk" (put_rule {E = String} (ok new) with_rule).1.rules
      ≡ some c)
    × (1 < c.version)
put_rule-raises_example =
    put_rule-raises String new (record old { version = 1 }) with_rule
      (put_rule-IsVersioned {E = String} (ok old) sample_engine engine-IsVersioned) stored refl
      (omega (arith, once))

abbrev indexed : Event Tick
indexed = event_at "cpu" "ok" 1

empty_home : (home "web1" sample_engine).idx ≡ some (new_index 3)
unfolding new_engine shard_for fnv32a utf8
empty_home = refl

index_lookup-emit_to_example :
    index_lookup "web1" "cpu" (tick 5) (emit_to (firing_of "index" indexed) sample_engine) ≡ (
      if key_eq (key_of indexed) (record { host = "web1"; service = "cpu" })
      then (if str_eq indexed.state expired_state
          then none
          else if is_refused no_item indexed (new_index 3)
          then index_lookup "web1" "cpu" (tick 5) sample_engine
          else if tick_lt (tick 11) (tick 5)
          then none
          else some indexed)
      else index_lookup "web1" "cpu" (tick 5) sample_engine)
index_lookup-emit_to_example =
    index_lookup-emit_to (firing_of "index" indexed) (new_index 3) "web1" "cpu" (tick 5)
      sample_engine two_shards refl empty_home
