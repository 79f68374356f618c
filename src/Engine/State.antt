-- ===== src/Engine/State.antt =====
-- internal/engine: the Engine (engine.go) with its loops (loop.go) and its subscribers (subs.go).
-- The maps of an engine that have fixed keys are fields, and channels are bounded queues. An inbox item
-- is its event: the instant at which it was enqueued only measures a lag, which is not modelled.
use riemann_go.Base.{ℕ, zero, suc, Option, none, some, List, [], ◌∷◌, String, get_or, set}
use riemann_go.Base.Float.{Float, pos}
use riemann_go.Base.Assoc.{Assoc}
use riemann_go.Event.{Event}
use riemann_go.Params.{Params}
use riemann_go.Index.{Index, HeapItem, new_index, zero_item}
use riemann_go.Ring.{Ring, new_ring}
use riemann_go.SinkQueue.{SinkQueue, new_sink_queue}
use riemann_go.Rule.{Compiled, Instance, Rt, Emitted}

pub record Subscriber (F Pr : Type 0) : Type 0 where
  pub c : List (Event F)
  pub dropped : ℕ
  pub prog : Option Pr

-- The set of subscribers, each under the number its pointer stands for.
pub record Subscribers (F Pr : Type 0) : Type 0 where
  pub set : Assoc ℕ (Subscriber F Pr)
  pub capacity : ℕ
  pub dropped : ℕ

pub record Loop (F Pr : Type 0) : Type 0 where
  pub shard_id : Option ℕ
  pub inbox : List (Event F)
  pub inbox_capacity : ℕ
  pub idx : Option (Index F)
  pub ring : Option (Ring F)
  pub rt : Rt F Pr
  pub rules : List (Instance F Pr)
  pub processed : ℕ
  pub stalled : ℕ
  pub rejected : ℕ
  pub dropped : ℕ

pub record Engine (F Pr : Type 0) : Type 0 where
  pub p : Params
  pub shards : List (Loop F Pr)
  pub global : Loop F Pr
  pub sink_ntfy : SinkQueue (Emitted F)
  pub sink_influx : SinkQueue (Emitted F)
  pub ring_seq : ℕ
  pub rules : Assoc String (Compiled F Pr)
  pub last_version : Assoc String ℕ
  pub subs : Subscribers F Pr
  pub ingest_accepted : ℕ
  pub ingest_rejected : ℕ

module _ {F : Type 0} ⦃fl : Float F⦄ where
  abbrev pub zero_float : F
  zero_float = fl.of_ℤ (pos 0)

  abbrev pub no_item : HeapItem F
  no_item = zero_item zero_float

module _ {F Pr : Type 0} ⦃fl : Float F⦄ where
  abbrev pub new_runtime : Rt F Pr
  new_runtime = record {
    now = zero_float;
    tm = record { h = []; seq = 0 };
    cells = [];
    fork_cells = [];
    counters = [];
    emitted = [];
  }

  unfoldable pub new_shard : Params → ℕ → Loop F Pr
  new_shard p i = record {
    shard_id = some i;
    inbox = [];
    inbox_capacity = p.shard_inbox_capacity;
    idx = some (new_index p.index_max_entries_per_shard);
    ring = some (new_ring p.shard_ring_events p.shard_ring_bytes);
    rt = new_runtime;
    rules = [];
    processed = 0;
    stalled = 0;
    rejected = 0;
    dropped = 0;
  }

  unfoldable pub new_shards : Params → ℕ → ℕ → List (Loop F Pr)
  new_shards p i zero = []
  new_shards p i (suc k) = new_shard p i ∷ new_shards p (suc i) k

  unfoldable pub new_engine : Params → Engine F Pr
  unfolding new_shards new_shard
  new_engine p = record {
    p = p;
    shards = new_shards p 0 p.shards;
    global = record {
      shard_id = none;
      inbox = [];
      inbox_capacity = p.shard_inbox_capacity;
      idx = none;
      ring = none;
      rt = new_runtime;
      rules = [];
      processed = 0;
      stalled = 0;
      rejected = 0;
      dropped = 0;
    };
    sink_ntfy = new_sink_queue "ntfy" p.sink_ntfy_queue_capacity;
    sink_influx = new_sink_queue "influx" p.sink_influx_queue_capacity;
    ring_seq = 0;
    rules = [];
    last_version = [];
    subs = record { set = []; capacity = p.subscribe_queue_capacity; dropped = 0 };
    ingest_accepted = 0;
    ingest_rejected = 0;
  }

  -- The loop of a shard, or the global loop.
  abbrev pub loop_at : Option ℕ → Engine F Pr → Loop F Pr
  loop_at none e = e.global
  loop_at (some i) e = get_or e.shards i e.global

  abbrev pub put_loop : Option ℕ → Loop F Pr → Engine F Pr → Engine F Pr
  put_loop none l e = record e { global = l }
  put_loop (some i) l e = record e { shards = set e.shards i l }
