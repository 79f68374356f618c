-- ===== src/Tests/LifeTests.antt =====
-- The theorem on a whole engine, at one that has a rule with an index sink and has taken an event.
use riemann_go.Base.{◌≡◌, refl, ℕ, some, [], ◌∷◌, get_or, get_elem?, set, length, true}
use riemann_go.Base.Assoc.{lookup, insert, string_eq}
use riemann_go.Event.{ok, Event, size}
use riemann_go.Heap
use riemann_go.Index
use riemann_go.Index.{Index, Entry, key_of, key_instance, insert_event}
use riemann_go.Timers
use riemann_go.Ring
use riemann_go.Rule
use riemann_go.Rule.{Compiled, sink_node}
use riemann_go.Rule.Compile.{ParseError}
use riemann_go.Engine
use riemann_go.Engine.{
  Engine, Loop, take_event, put_rule, new_engine, index_lookup, shard_for, try_send,
}
use riemann_go.Engine.Life.{Life, starts, steps, puts, sends, takes, Life-index_lookup}
use riemann_go.Tests.Samples.{
  Tick, tick, tick_float, Program, sample_vm, sample_rule, sample_params, sample_engine, event_at,
}

abbrev rule : Compiled Tick Program
rule = record (sample_rule "disk" "h1") { root = sink_node "stream" "index"; paths = "stream" ∷ [] }

abbrev cpu : Event Tick
cpu = event_at "cpu" "ok" 5

abbrev shard : ℕ
shard = shard_for 2 "web1"

abbrev with_rule : Engine Tick Program
with_rule = (put_rule {E = ParseError} (ok rule) sample_engine).1

abbrev receiver : Loop Tick Program
receiver = get_or with_rule.shards shard with_rule.global

abbrev received : Loop Tick Program
received = record receiver { inbox = cpu ∷ [] }

abbrev with_event : Engine Tick Program
with_event = record with_rule { shards = set with_rule.shards shard received }

abbrev after : Engine Tick Program
after = take_event (some shard) 1 (tick 6) with_event

abbrev entry : Entry Tick
entry = record { ev = cpu; deadline = tick 15; gen = 1 }

abbrev index_after : Index Tick
index_after = record {
  entries = (key_of cpu, entry) ∷ [];
  heap = record { deadline = tick 15; gen = 1; k = key_of cpu } ∷ [];
  gen = 1;
  max = 3;
  rejected = 0;
  wake = true;
}

abbrev loop_after : Loop Tick Program
loop_after = get_or after.shards shard after.global

-- The event is sent, and once it is taken it is in the index of its shard.
ran :
    (try_send cpu
        (get_or with_rule.shards (shard_for (length with_rule.shards) "web1") with_rule.global)
      ≡ some received)
    × (with_event ≡ record with_rule {
      shards = set with_rule.shards (shard_for (length with_rule.shards) "web1") received;
    })
    × (get_elem? after.shards shard ≡ some loop_after)
    × (loop_after.idx ≡ some index_after)
    × (lookup (key_of cpu) index_after.entries ≡ some entry)
unfolding take_event put_rule new_engine Engine.store_rule Engine.for_loops Engine.install
    Engine.is_same_hash lookup insert Engine.shard_for Engine.fnv32a Engine.utf8 Engine.fire_due
    Engine.run_timers Engine.drain_firings Engine.emit_all Engine.emit_to Engine.index_event
    Engine.dispatch Engine.record_event Engine.run_rules Engine.offer_all Engine.hand_on
    Engine.forward_global Engine.publish Engine.count_processed Engine.expire_all
    Engine.update_index Rule.offer Rule.new_instance Rule.instantiate Rule.process Rule.emit
    Rule.bump Rule.fire_timers Timers.fire_due Timers.pop_due Timers.due_first Timers.less
    Index.insert_event Index.put Index.pop_due Index.new_index Heap.push Heap.up Ring.add
    Ring.new_ring Ring.evict Ring.store size Engine.place_rule Engine.is_global Engine.same try_send
ran = (refl, refl, refl, refl, refl)

alive : Life sample_params after
alive =
    steps (steps (steps starts (puts (ok rule) refl)) (sends cpu received ran.0 ran.1))
      (takes (some shard) 1 (tick 6) refl)

Life-index_lookup_example : index_lookup "web1" "cpu" (tick 9) after ≡ some cpu
Life-index_lookup_example =
    Life-index_lookup sample_params shard loop_after index_after (key_of cpu) entry (tick 9) alive
      ran.2 ran.3 ran.4
