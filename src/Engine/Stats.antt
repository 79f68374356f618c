-- ===== src/Engine/Stats.antt =====
-- internal/engine/stats.go: Stats, the snapshot for GET /metrics and self-observation, and Discards of
-- compile.go. The gauges that the engine's model leaves out are an argument.
use riemann_go.Base.{ℕ, suc, Option, none, some, List, [], ◌∷◌, map, String, length, add64}
use riemann_go.Base.Float.{Float}
use riemann_go.Index
use riemann_go.Index.{Index}
use riemann_go.Ring
use riemann_go.Ring.{Ring}
use riemann_go.SinkQueue.{SinkStats, residual, stats}
use riemann_go.Rule.{Compiled, CounterKind, discarded, counter, key_at}
use riemann_go.Engine.State.{Loop, Engine}
use riemann_go.Engine.Store.{rules}

pub record ShardStats (F : Type 0) : Type 0 where
  pub id : ℕ
  pub inbox_depth : ℕ
  pub inbox_capacity : ℕ
  pub stalled : ℕ
  pub rejected : ℕ
  pub processed : ℕ
  pub loop_lag : F
  pub in_flight : ℕ
  pub index_entries : ℕ
  pub index_rejected : ℕ
  pub ring_events : ℕ
  pub ring_bytes : ℕ

pub record QueueStats (F : Type 0) : Type 0 where
  pub depth : ℕ
  pub capacity : ℕ
  pub dropped : ℕ
  pub processed : ℕ
  pub in_flight : ℕ
  pub loop_lag : F

pub record RuleStats : Type 0 where
  pub id : String
  pub version : ℕ
  -- each path with its discards
  pub discards : List (String × ℕ)
  pub forks_live : ℕ
  pub forks_freed : ℕ

pub record Stats (F : Type 0) : Type 0 where
  pub sinks : List SinkStats
  pub shards : List (ShardStats F)
  pub global : QueueStats F
  pub subscribers : ℕ
  pub subscribe_capacity : ℕ
  pub subscribe_dropped : ℕ
  pub ingest_accepted : ℕ
  pub ingest_rejected : ℕ
  pub inflight_requests : ℕ
  pub max_inflight_requests : ℕ
  pub stable_capacity : ℕ
  pub rules : List RuleStats
  pub residual : ℕ

-- The lag and the in-flight gauge of each loop, none being the global one, and the gauge of requests.
pub record Gauges (F : Type 0) : Type 0 where
  pub lag : Option ℕ → F
  pub in_flight : Option ℕ → ℕ
  pub inflight_requests : ℕ

module _ {F : Type 0} ⦃fl : Float F⦄ where
  index_size : Option (Index F) → ℕ × ℕ
  index_size none = (0, 0)
  index_size (some x) = (Index.len x, x.rejected)

module _ {F : Type 0} where
  ring_size : Option (Ring F) → ℕ × ℕ
  ring_size none = (0, 0)
  ring_size (some r) = Ring.stats r

module _ {F Pr : Type 0} ⦃fl : Float F⦄ where
  shard_stats : Gauges F → ℕ → Loop F Pr → ShardStats F
  unfolding index_size ring_size
  shard_stats g i l = record {
    id = i;
    inbox_depth = length l.inbox;
    inbox_capacity = l.inbox_capacity;
    stalled = l.stalled;
    rejected = l.rejected;
    processed = l.processed;
    loop_lag = g.lag (some i);
    in_flight = g.in_flight (some i);
    index_entries = (index_size l.idx).0;
    index_rejected = (index_size l.idx).1;
    ring_events = (ring_size l.ring).0;
    ring_bytes = (ring_size l.ring).1;
  }

  unfoldable pub shards_stats : Gauges F → ℕ → List (Loop F Pr) → List (ShardStats F)
  unfolding shard_stats
  shards_stats g i [] = []
  shards_stats g i (l ∷ ls) = shard_stats g i l ∷ shards_stats g (suc i) ls

  -- A counter of a rule is one for all loops; the loops of the model count apart.
  count_in : Compiled F Pr → CounterKind → String → List (Loop F Pr) → ℕ
  count_in c kind path [] = 0
  count_in c kind path (l ∷ ls) =
      add64 (counter (key_at c kind path) l.rt) (count_in c kind path ls)

  unfoldable pub counted : Compiled F Pr → CounterKind → String → Engine F Pr → ℕ
  unfolding count_in
  counted c kind path e = count_in c kind path (e.global ∷ e.shards)

  rule_stats : Engine F Pr → Compiled F Pr → RuleStats
  unfolding counted
  rule_stats e c = record {
    id = c.id;
    version = c.version;
    discards = map (λ path. (path, counted c discarded path e)) c.paths;
    forks_live = counted c CounterKind.forks_live "" e;
    forks_freed = counted c CounterKind.forks_freed "" e;
  }

  unfoldable pub engine_stats : Gauges F → Engine F Pr → Stats F
  unfolding shards_stats rule_stats
  engine_stats g e = record {
    sinks = stats e.sink_ntfy ∷ stats e.sink_influx ∷ [];
    shards = shards_stats g 0 e.shards;
    global = record {
      depth = length e.global.inbox;
      capacity = e.global.inbox_capacity;
      dropped = e.global.dropped;
      processed = e.global.processed;
      in_flight = g.in_flight none;
      loop_lag = g.lag none;
    };
    subscribers = length e.subs.set;
    subscribe_capacity = e.p.subscribe_queue_capacity;
    subscribe_dropped = e.subs.dropped;
    ingest_accepted = e.ingest_accepted;
    ingest_rejected = e.ingest_rejected;
    inflight_requests = g.inflight_requests;
    max_inflight_requests = e.p.ingest_max_inflight_requests;
    stable_capacity = e.p.stable_buffer_capacity;
    rules = map (rule_stats e) (rules e);
    residual = add64 (residual (stats e.sink_ntfy)) (residual (stats e.sink_influx));
  }
