-- ===== src/Lib.antt =====
-- A verification library for riemann-go, the stream processor of releases/validated/gen-20260930-dryrun
-- (the latest generation; paths below are from its src/internal).
--
-- Events come in over HTTP. Admit routes each to the shard of its host (FNV-1a modulo the number of
-- shards) and puts it in that shard's inbox. The shard's loop takes it, fires what is due, records it
-- in the shard's ring, runs the shard's rules on it in ascending order of their ids, forwards it to the
-- global loop, whose rules have the partition "global", and publishes it to subscribers. A rule is a
-- tree of combinators whose leaves emit to a sink: the index of the event's shard, or a bounded queue
-- that a worker drains to ntfy or influx. An index entry whose deadline passes is dispatched as an
-- event in the state "expired" and removed.
--
--   Base       names passed on from the libraries, Boolean tests, lists, association lists for Go maps,
--              64-bit words, the order of texts, circular buffers, and float64 as an interface
--   Event      event/event.go. Defs: Decode, MarshalJSON, Clone, Size, Tagged. Access: FieldKey and
--              ApplyField. Env: Env and AsMap. Decoding: proofs
--   SinkQueue  engine/queue.go. Contents, Accounting, Worker (all interleavings), Run: proofs
--   Ring       engine/ring.go. Contents, Bounds: proofs
--   Heap       Go's container/heap, on which timers and index stand, with its proofs
--   Timers     engine/timers.go. Order, Firing: proofs
--   Index      index/index.go. Table, Inv, Expiry, Sweep, Deadline, Stuck, Keys: proofs
--   Rule       rule/. Tree: Template and Compiled of compile.go, and Bool and Value of exprs/exprs.go.
--              Runtime: runtime.go and what a loop keeps for its rules. Steps: what a node decides from
--              its own state. Process: Process of every node, and Fork. Hosting: Instance, Offer, and
--              the timer of stable. Changes, Alerts, Throttling, Settling: proofs. Compile: Parse,
--              compileDoc, node and binding of compile.go; its children Accepted, Again, Sound and the
--              modules that these use have the proofs
--   Params     params/params.go: Defaults and Set. Positive: proofs
--   Engine     engine/. State: Engine, loop, Subscriber. Routing: shardFor. Subs: subs.go. Placement:
--              a loop's list of instances. Loops: emit, forwardGlobal (engine.go), dispatch, fireDue,
--              control (loop.go). Store: PutRule, DeleteRule, Rules, Rule, Admit (engine.go). Reads:
--              IndexLookup, IndexQuery, RecentEvents, and DryRun (dryrun.go). Stats: stats.go. Instances,
--              Installed, Running, Versions, Admission, Shedding, Lookups, Accounting, and Homes, Homing,
--              Arrivals and Life, which a whole engine's steps are in: proofs
--   Sinks      sinks/. Ntfy: ntfy/ntfy.go. Influx: influx/influx.go. Reply: what comes of a request.
--              Lines, Escapes, Posts: proofs
--   Http       httpapi/server.go. Requests: postEvents, bodies and answers. Handlers: the other handlers.
--              Limit: LimitListener. Stream: the frames of subscribe, with a proof. Ingest, Slots, Puts:
--              proofs
--   Selfobs    selfobs/selfobs.go: Sample
--   Tests      the theorems at concrete inputs
--
-- How the code is modelled. A pointer to an event is the event, since no event is changed after it is
-- built. A map is an association list; the order of an iteration, which Go leaves open, is that of the
-- list. Counters, versions and generations are the 64 bits of an int64 or a uint64 and wrap; lengths
-- of slices in memory do not. A critical section of a mutex is one function from state to state, and
-- so is a handler of a loop. Live nodes are cells of a store at addresses, as Go nodes are objects
-- behind pointers, so that what a timer's closure captures is an address. A reading of the clock is
-- an argument.
--
-- float64 is a type with the operations that the program uses and the laws of IEEE 754's order
-- (Base.Float); expr-lang's virtual machine and fmt.Sprint are the interface Vm (Rule.Tree); the results
-- of encoding/json and of strconv's parsers are arguments, and so are expr-lang's compiler and the digest
-- of a rule (Toolchain, Rule.Compile.Defs). A JSON value is Base.Json. The instances in Tests satisfy these
-- interfaces.
--
-- Fuel. The loops of the heap, the ring and the index take one element a round, so that a round more
-- than there are elements is enough; the proofs show it. SinkQueue.run is Run with no other goroutine
-- in between, and ends with fuel above the number of queued firings. fire_due (Timers) and what uses it
-- (fire_timers, take_event, dry_run) leave the fuel to the caller: a timer may schedule another. The
-- compiler of a rule's nodes recurses through references to bindings; compile_tree gives it one more than
-- the sizes of the stream and of all bindings, which is enough for every document.
--
-- Not modelled: routes, CORS and headers, the texts of errors and of GET /metrics, net/http beneath
-- handlers and sinks (its answers are arguments), the wall-clock timer and the gauges of a loop (an
-- argument of Stats), and the earlier generations.
pub mod Base
pub mod Event
pub mod SinkQueue
pub mod Ring
pub mod Heap
pub mod Timers
pub mod Index
pub mod Rule
pub mod Params
pub mod Engine
pub mod Sinks
pub mod Http
pub mod Selfobs
pub mod Tests
