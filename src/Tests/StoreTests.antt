-- ===== src/Tests/StoreTests.antt =====
-- The theorems on the ring, the index, the timers and the wire form, at concrete values.
use riemann_go.Base.{
  ℕ, ◌≤◌, ◌<◌, ◌≡◌, ◌≢◌, ◌⊎◌, ◌↔◌, refl, true, false, not, ◌||◌, some, [], ◌∷◌, ◌++◌, All, arith,
  str_eq, eq_iff, if◌then◌else◌, add64,
}
use riemann_go.Base.Assoc.{lookup, insert}
use riemann_go.Event.{Event, Encoded, ok, decode, marshal_json, size, expired_state}
use riemann_go.Event.Decoding.{as_wire, decode-marshal_json, decode-ok_iff, IsDecoded}
use riemann_go.Ring
use riemann_go.Ring.{Ring, new_ring, RingEntry}
use riemann_go.Ring.Contents.{new_ring-IsValid, add-IsValid, snapshot-add, trim, new_entry}
use riemann_go.Ring.Bounds.{add_bounds}
use riemann_go.Index
use riemann_go.Index.{
  peek, Index, Key, Entry, HeapItem, key_instance, key_eq, key_of, new_index, insert_event,
  lookup_event, len, zero_item,
}
use riemann_go.Index.Table.{is_refused, insert_event_bound}
use riemann_go.Index.Inv.{IsIndexed, new_index-IsIndexed, insert_event-IsIndexed}
use riemann_go.Index.Expiry.{IsPast, InDues, IsPopped, NothingOut, pop_due_lem}
use riemann_go.Index.Deadline.{IsNext, next_deadline-IsNext}
use riemann_go.Index.Stuck.{IsStuck, inserts, asks, call_all, pop_due-stuck}
use riemann_go.Index.Sweep.{expire, live_entry, expire_lem}
use riemann_go.Heap
use riemann_go.Timers
use riemann_go.Timers.{Timer, Timers, schedule}
use riemann_go.Tests.Samples.{Tick, nan, tick, tick_lt, tick_float, event_at}

abbrev cpu : Event Tick
cpu = event_at "cpu" "ok" 5

abbrev disk : Event Tick
disk = event_at "disk" "critical" 7

-- The wire form

cpu_named : (cpu.host ≢ "") × (cpu.service ≢ "")
cpu_named = (λ h. cc ((eq_iff "web1" "").1 h), λ h. cc ((eq_iff "cpu" "").1 h))

abbrev cpu_written : Encoded Tick
cpu_written = record {
  host = "web1";
  service = "cpu";
  state = "ok";
  metric = some (tick 3);
  time = tick 5;
  ttl = tick 10;
  tags = [];
  attributes = [];
  description = "";
  source = "";
}

decode-marshal_json_example :
    (w : Encoded Tick) × (marshal_json cpu ≡ some w)
    × (decode (some (as_wire w)) (tick 9) ≡ ok (record cpu { expired = false }))
decode-marshal_json_example =
    decode-marshal_json cpu (tick 9) cpu_named.0 cpu_named.1
      (record { metric = λ m h. ground (arith, h); time = refl; ttl = refl })

decode-ok_iff_example :
    (decode (some (as_wire cpu_written)) (tick 9) ≡ ok cpu)
    ↔ IsDecoded (as_wire cpu_written) (tick 9) cpu
decode-ok_iff_example = decode-ok_iff (as_wire cpu_written) (tick 9) cpu

-- The ring

abbrev ring : Ring Tick
ring = Ring.add 1 cpu (new_ring 1 1000)

max_events-ring : ring.max_events ≡ 1
unfolding Ring.add Ring.store Ring.evict Ring.drop_oldest new_ring size
max_events-ring = refl

room : 0 < (new_ring {F = Tick} 1 1000).max_events
unfolding new_ring
room = omega arith

ring-IsValid : Ring.Contents.IsValid ring
ring-IsValid = add-IsValid 1 cpu (new_ring 1 1000) (new_ring-IsValid 1 1000 (omega arith)) room

snapshot-add_example :
    Ring.snapshot (Ring.add 2 disk ring)
    ≡ trim ring.max_events ring.max_bytes (size disk) (Ring.snapshot ring)
      ++ some (new_entry 2 disk) ∷ []
snapshot-add_example = snapshot-add 2 disk ring ring-IsValid (omega (arith, max_events-ring))

add_bounds_example :
    ((Ring.stats (Ring.add 2 disk ring)).0 ≤ ring.max_events)
    × (((Ring.stats (Ring.add 2 disk ring)).1 ≤ ring.max_bytes)
        ⊎ (Ring.snapshot (Ring.add 2 disk ring) ≡ some (new_entry 2 disk) ∷ []))
add_bounds_example = add_bounds 2 disk ring ring-IsValid (omega (arith, max_events-ring))

-- The index

abbrev no_item : HeapItem Tick
no_item = zero_item (tick 0)

abbrev empty : Index Tick
empty = new_index 1

abbrev index : Index Tick
index = (insert_event no_item cpu empty).1

gen-empty : (empty.gen ≡ 0) × (empty.max ≡ 1) × (len empty ≡ 0)
unfolding new_index len
gen-empty = (refl, refl, refl)

abbrev Nothing : Key → ℕ → Type 0
Nothing = NothingOut

empty-IsIndexed : IsIndexed no_item Nothing empty
empty-IsIndexed = new_index-IsIndexed no_item Nothing 1

insert_event-IsIndexed_example : IsIndexed no_item Nothing (insert_event no_item cpu empty).1
insert_event-IsIndexed_example =
    insert_event-IsIndexed no_item Nothing cpu empty (omega (arith, gen-empty.0)) refl
      empty-IsIndexed

insert_event_bound_example :
    (len (insert_event no_item cpu empty).1 ≤ empty.max)
    × ((insert_event no_item cpu empty).0
        ≡ (str_eq cpu.state expired_state || not (is_refused no_item cpu empty)))
    × ((insert_event no_item cpu empty).1.rejected
        ≡ (if (insert_event no_item cpu empty).0 then empty.rejected else add64 empty.rejected 1))
    × ((insert_event no_item cpu empty).1.max ≡ empty.max)
insert_event_bound_example =
    insert_event_bound no_item cpu empty (omega (arith, gen-empty.1, gen-empty.2))

index-IsIndexed : IsIndexed no_item Nothing index
index-IsIndexed =
    insert_event-IsIndexed no_item Nothing cpu empty (omega (arith, gen-empty.0)) refl
      empty-IsIndexed

pop_due_lem_example :
    All (IsPast (tick 20) index) (Index.pop_due no_item (tick 20) index).0
    × ((k : Key) (e : Entry Tick)
        → lookup k index.entries ≡ some e
        → tick_lt e.deadline (tick 20) ≡ true
        → InDues (Index.pop_due no_item (tick 20) index).0 k e.gen)
    × IsPopped no_item (tick 20) NothingOut index (Index.pop_due no_item (tick 20) index)
pop_due_lem_example = pop_due_lem no_item (tick 20) index index-IsIndexed

expire_lem_example :
    ((k : Key)
      → lookup k (expire no_item (tick 20) index).entries
        ≡ live_entry no_item (tick 20) (lookup k index.entries))
    × IsIndexed no_item NothingOut (expire no_item (tick 20) index)
expire_lem_example = expire_lem no_item (tick 20) index index-IsIndexed

next_deadline-IsNext_example : IsNext no_item index (Index.next_deadline no_item index)
next_deadline-IsNext_example = next_deadline-IsNext no_item index index-IsIndexed

-- An event with a NaN for its ttl, and then one that expires at 15.
abbrev blocked : Index Tick
blocked =
    (insert_event no_item cpu (insert_event no_item (record disk { ttl = nan }) (new_index 2)).1).1

abbrev blocking : HeapItem Tick
blocking = record { deadline = nan; gen = 1; k = key_of disk }

blocked-IsStuck : IsStuck no_item blocking blocked
unfolding insert_event new_index lookup insert Index.put Index.less Heap.push Heap.up
blocked-IsStuck = record {
  filled = omega arith;
  root = refl;
  nan = refl;
  current = (_, refl, refl);
}

pop_due-stuck_example :
    (Index.pop_due no_item (tick 1000) (call_all no_item (inserts cpu ∷ asks ∷ []) blocked)
      ≡ ([], call_all no_item (inserts cpu ∷ asks ∷ []) blocked))
    × (Index.next_deadline no_item (call_all no_item (inserts cpu ∷ asks ∷ []) blocked)
        ≡ (some nan, call_all no_item (inserts cpu ∷ asks ∷ []) blocked))
pop_due-stuck_example =
    pop_due-stuck no_item (inserts cpu ∷ asks ∷ []) (tick 1000) blocking blocked blocked-IsStuck
      (refl, (tt, tt))

-- Timers

abbrev zero_timer : Timer Tick ℕ
zero_timer = record { due = tick 0; seq = 0; fn = 0 }

abbrev idle : Timers Tick ℕ
idle = record { h = []; seq = 0 }

abbrev scheduled : Timers Tick ℕ
scheduled = schedule zero_timer (tick 5) 44 idle
