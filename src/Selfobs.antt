-- ===== src/Selfobs.antt =====
-- internal/selfobs/selfobs.go: New and Sample. The host name of the system is an argument, and so are the
-- instant of the sample and its ttl, twice the interval in seconds.
use riemann_go.Base.{
  ℕ, ◌-◌, ◌^◌, false, Option, none, some, List, [], ◌∷◌, ◌++◌, String, str_eq, ltb, ◌<>◌,
  if◌then◌else◌,
}
use riemann_go.Base.Decimal.{itoa, format_int}
use riemann_go.Base.Float.{Float, ℤ, pos, negsuc}
use riemann_go.Base.Assoc.{Assoc}
use riemann_go.Event.{Event}
use riemann_go.SinkQueue.{SinkStats}
use riemann_go.Engine.{Engine, admit}
use riemann_go.Engine.Stats.{ShardStats, RuleStats, Stats, Gauges, engine_stats}

-- New: os.Hostname, none for an error
unfoldable pub host_of : Option String → String
host_of none = "riemann-go"
host_of (some s) = if str_eq s "" then "riemann-go" else s

-- An int64, from its 64 bits
unfoldable pub signed : ℕ → ℤ
signed n = if ltb n (2 ^ 63) then pos n else negsuc (2 ^ 64 - 1 - n)

module _ {F : Type 0} ⦃fl : Float F⦄ (host : String) (now ttl : F) where
  -- `add`
  unfoldable pub observed : String → F → Assoc String String → Event F
  observed service metric attributes = record {
    host = host;
    service = service;
    state = "ok";
    metric = some metric;
    time = now;
    ttl = ttl;
    tags = "riemann" ∷ [];
    attributes = attributes;
    description = "";
    source = "";
    expired = false;
  }

  -- the same, of an integer
  unfoldable pub counted : String → ℕ → Assoc String String → Event F
  unfolding observed signed
  counted service n attributes = observed service (fl.of_ℤ (signed n)) attributes

  unfoldable pub of_sinks : List SinkStats → List (Event F)
  unfolding counted
  of_sinks [] = []
  of_sinks (sk ∷ sks) =
      counted ("riemann.sink." <> (sk.name <> ".depth")) sk.depth []
      ∷ counted ("riemann.sink." <> (sk.name <> ".capacity")) sk.capacity []
      ∷ counted ("riemann.sink." <> (sk.name <> ".dropped")) sk.dropped []
      ∷ of_sinks sks

  unfoldable pub of_shard : ShardStats F → List (Event F)
  unfolding counted observed
  of_shard sh =
      let a : Assoc String String = ("shard", itoa sh.id) ∷ [] in
      counted "riemann.shard.inbox.depth" sh.inbox_depth a
      ∷ counted "riemann.shard.inbox.capacity" sh.inbox_capacity a
      ∷ counted "riemann.shard.inbox.dropped" sh.rejected a
      ∷ observed "riemann.shard.loop_lag" sh.loop_lag a
      ∷ counted "riemann.shard.index_entries" sh.index_entries a
      ∷ counted "riemann.shard.in_flight" sh.in_flight a
      ∷ counted "riemann.index.rejected" sh.index_rejected a
      ∷ []

  unfoldable pub of_shards : List (ShardStats F) → List (Event F)
  unfolding of_shard
  of_shards [] = []
  of_shards (sh ∷ shs) = of_shard sh ++ of_shards shs

  unfoldable pub of_discards : RuleStats → List (String × ℕ) → List (Event F)
  unfolding counted
  of_discards rs [] = []
  of_discards rs ((path, n) ∷ ds) =
      counted "riemann.rule.discarded" n
        (("rule", rs.id) ∷ ("version", format_int rs.version) ∷ ("node", path) ∷ [])
      ∷ of_discards rs ds

  unfoldable pub of_rules : List RuleStats → List (Event F)
  unfolding of_discards counted
  of_rules [] = []
  of_rules (rs ∷ rss) =
      let ra : Assoc String String = ("rule", rs.id) ∷ ("version", format_int rs.version) ∷ [] in
      of_discards rs rs.discards
      ++ (counted "riemann.rule.forks_live" rs.forks_live ra
          ∷ counted "riemann.rule.forks_freed" rs.forks_freed ra
          ∷ of_rules rss)

  unfoldable pub of_process : Stats F → List (Event F)
  unfolding counted
  of_process st =
      counted "riemann.global.inbox.depth" st.global.depth []
      ∷ counted "riemann.global.inbox.capacity" st.global.capacity []
      ∷ counted "riemann.global.inbox.dropped" st.global.dropped []
      ∷ counted "riemann.subscribe.depth" st.subscribers []
      ∷ counted "riemann.subscribe.capacity" st.subscribe_capacity []
      ∷ counted "riemann.subscribe.dropped" st.subscribe_dropped []
      ∷ counted "riemann.ingest.accepted" st.ingest_accepted []
      ∷ counted "riemann.ingest.rejected" st.ingest_rejected []
      ∷ []

  -- The events of a sample
  unfoldable pub sample_of : Stats F → List (Event F)
  unfolding of_sinks of_shards of_process of_rules counted
  sample_of st =
      of_sinks st.sinks
      ++ (of_shards st.shards
          ++ (of_process st
              ++ (of_rules st.rules ++ counted "riemann.accounting.residual" st.residual [] ∷ [])))

  -- Sample
  unfoldable pub sample :
      {Pr : Type 0}
      → (ℕ → Engine F Pr → Option (Engine F Pr))
      → Gauges F
      → Engine F Pr
      → (ℕ × ℕ) × Engine F Pr
  unfolding sample_of
  sample wait g e = admit wait (sample_of (engine_stats g e)) e
