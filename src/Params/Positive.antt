-- ===== src/Params/Positive.antt =====
-- Set (params.go) and the range of the parameters.
use Prim.Native.String.{find, slice}
use riemann_go.Base.{
  len, leb, ◌+◌, ℕ, ◌≤◌, ◌<◌, ◌≡◌, ◌⊎◌, Bool, true, false, Option, none, some, String, str_eq,
  if◌then◌else◌, List, [], ◌∷◌, All,
}
use riemann_go.Base.Float.{ℤ, pos}
use riemann_go.Event.{Result, ok, err}
use riemann_go.Params.{
  Params, Strconv, SetError, trim_space, unknown_parameter, no_equals_sign, not_positive,
}

-- The sizes and the numbers of things: all parameters but the two durations.
abbrev pub numbers : Params → List ℕ
numbers p =
    p.ingest_max_inflight_requests ∷ p.ingest_max_batch_events ∷ p.ingest_max_batch_bytes
    ∷ p.shard_inbox_capacity ∷ p.sink_ntfy_queue_capacity ∷ p.sink_influx_queue_capacity
    ∷ p.subscribe_queue_capacity ∷ p.stable_buffer_capacity ∷ p.index_max_entries_per_shard
    ∷ p.shard_ring_events ∷ p.shard_ring_bytes ∷ p.shards ∷ []

abbrev pub IsPositive : Params → Type 0
IsPositive p = All (λ n. 1 ≤ n) (numbers p)

-- The parameters of Set, by what a value of each has to be.
pub data Kind : Type 0 where
  number milliseconds seconds : Kind

abbrev pub parameters : List (String × Kind)
parameters =
    ("ingest.max_inflight_requests", number)
    ∷ ("ingest.max_batch_events", number)
    ∷ ("ingest.max_batch_bytes", number)
    ∷ ("ingest.admission_deadline", milliseconds)
    ∷ ("shard.inbox_capacity", number)
    ∷ ("sink.ntfy.queue_capacity", number)
    ∷ ("sink.influx.queue_capacity", number)
    ∷ ("subscribe.queue_capacity", number)
    ∷ ("stable.buffer_capacity", number)
    ∷ ("index.max_entries_per_shard", number)
    ∷ ("shard.ring_events", number)
    ∷ ("shard.ring_bytes", number)
    ∷ ("engine.shards", number)
    ∷ ("self.interval", seconds)
    ∷ []

unfoldable pub is_positive : Option ℤ → Bool
is_positive (some (pos n)) = leb 1 n
is_positive _ = false

unfoldable pub is_read : Option ℕ → Bool
is_read none = false
is_read (some n) = true

module _ (strconv : Strconv) where
  -- A number is an integer from 1 on, a duration what is read as one.
  unfoldable pub is_accepted : Kind → String → Bool
  unfolding is_positive is_read
  is_accepted number value = is_positive (strconv.parse_int value)
  is_accepted milliseconds value = is_read (strconv.parse_duration value 1000000)
  is_accepted seconds value = is_read (strconv.parse_duration value 1000000000)

  -- Whether the value fits the parameter; none: there is none of this name.
  unfoldable pub verdict : List (String × Kind) → String → String → Option Bool
  unfolding is_accepted
  verdict [] name value = none
  verdict ((n, kind) ∷ known) name value =
      if str_eq name n then some (is_accepted kind value) else verdict known name value

-- What Set returns, by that verdict: other parameters only for a fitting value, and then positive ones.
unfoldable pub IsVerdict : Option Bool → Result SetError Params → Type 0
IsVerdict none r = r ≡ err unknown_parameter
IsVerdict (some false) r = r ≡ err not_positive
IsVerdict (some true) r = (q : Params) × (r ≡ ok q) × IsPositive q

module _ (strconv : Strconv) where
  -- What Set returns for a pair, by its name and its value without the blanks around them.
  unfoldable pub IsAnswered : String → Result SetError Params → Type 0
  unfolding IsVerdict verdict
  IsAnswered pair r =
      let at = find pair "=" in
      ((len pair < at) × (r ≡ err no_equals_sign))
      ⊎ ((at ≤ len pair)
          × IsVerdict
              (verdict strconv parameters (trim_space (slice pair 0 at))
                (trim_space (slice pair (at + 1) (len pair))))
              r)
