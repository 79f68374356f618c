-- ===== src/Params.antt =====
-- internal/params/params.go: the parameters, their defaults, and Set, which applies one pair of --set.
-- The parsers of strconv are arguments, by what they make of a text.
pub mod Positive
use Prim.Native.Char.{Char, code}
use Prim.Native.String.{String as Text, [] as no_text, ◌∷◌ as ◌∷ₜ◌, find, slice}
use riemann_go.Base.{
  ℕ, suc, ◌+◌, Bool, true, false, ◌&&◌, ◌||◌, Option, none, some, String, str_eq, len, ltb, leb,
  ◌==◌, if◌then◌else◌,
}
use riemann_go.Base.Float.{ℤ, pos, negsuc}
use riemann_go.Event.{Result, ok, err}

pub record Params : Type 0 where
  pub ingest_max_inflight_requests : ℕ
  pub ingest_max_batch_events : ℕ
  pub ingest_max_batch_bytes : ℕ
  -- nanoseconds
  pub ingest_admission_deadline : ℕ
  pub shard_inbox_capacity : ℕ
  pub sink_ntfy_queue_capacity : ℕ
  pub sink_influx_queue_capacity : ℕ
  pub subscribe_queue_capacity : ℕ
  pub stable_buffer_capacity : ℕ
  pub index_max_entries_per_shard : ℕ
  pub shard_ring_events : ℕ
  pub shard_ring_bytes : ℕ
  pub shards : ℕ
  pub self_interval : ℕ

-- strconv.Atoi and strconv.ParseInt in base 10 (none: an error), and strconv.ParseFloat of a positive
-- number, as a duration in nanoseconds of so many nanoseconds for each unit.
pub record Strconv : Type 0 where
  pub parse_int : String → Option ℤ
  pub parse_duration : String → ℕ → Option ℕ

pub data SetError : Type 0 where
  no_equals_sign not_positive unknown_parameter : SetError

-- Defaults; `cpus` is GOMAXPROCS.
unfoldable pub defaults : ℕ → Params
defaults cpus = record {
  ingest_max_inflight_requests = 256;
  ingest_max_batch_events = 1000;
  ingest_max_batch_bytes = 1048576;
  ingest_admission_deadline = 200000000;
  shard_inbox_capacity = 4096;
  sink_ntfy_queue_capacity = 1000;
  sink_influx_queue_capacity = 10000;
  subscribe_queue_capacity = 1000;
  stable_buffer_capacity = 1024;
  index_max_entries_per_shard = 1000000;
  shard_ring_events = 100000;
  shard_ring_bytes = 67108864;
  shards = cpus;
  self_interval = 10000000000;
}

-- unicode.IsSpace
is_space : Char → Bool
is_space c =
    let n = code c in
    leb 9 n && leb n 13
    || n == 32
    || n == 133
    || n == 160
    || n == 5760
    || leb 8192 n && leb n 8202
    || n == 8232
    || n == 8233
    || n == 8239
    || n == 8287
    || n == 12288

trim_left : String → String
unfolding is_space
trim_left no_text = no_text
trim_left (c ∷ₜ s) = let rest = trim_left s in if is_space c then rest else c ∷ₜ s

is_blank_text : String → Bool
unfolding is_space
is_blank_text no_text = true
is_blank_text (c ∷ₜ s) = is_space c && is_blank_text s

trim_right : String → String
unfolding is_blank_text
trim_right no_text = no_text
trim_right (c ∷ₜ s) =
    let rest = trim_right s in if is_blank_text (c ∷ₜ s) then no_text else c ∷ₜ rest

-- strings.TrimSpace
unfoldable pub trim_space : String → String
unfolding trim_left trim_right
trim_space s = trim_left (trim_right s)

-- posInt and posInt64: a parsed number from 1 on is stored.
unfoldable pub pos_int : Option ℤ → (ℕ → Params) → Result SetError Params
pos_int (some (pos (suc n))) store = ok (store (suc n))
pos_int _ store = err not_positive

unfoldable pub pos_duration : Option ℕ → (ℕ → Params) → Result SetError Params
pos_duration none store = err not_positive
pos_duration (some n) store = ok (store n)

module _ (strconv : Strconv) where
  -- The switch of Set.
  unfoldable pub set_named : String → String → Params → Result SetError Params
  unfolding pos_int pos_duration
  set_named name value p =
      let n = strconv.parse_int value in
      if str_eq name "ingest.max_inflight_requests"
      then pos_int n (λ v. record p { ingest_max_inflight_requests = v })
      else if str_eq name "ingest.max_batch_events"
      then pos_int n (λ v. record p { ingest_max_batch_events = v })
      else if str_eq name "ingest.max_batch_bytes"
      then pos_int n (λ v. record p { ingest_max_batch_bytes = v })
      else if str_eq name "ingest.admission_deadline"
      then pos_duration (strconv.parse_duration value 1000000)
          (λ v. record p { ingest_admission_deadline = v })
      else if str_eq name "shard.inbox_capacity"
      then pos_int n (λ v. record p { shard_inbox_capacity = v })
      else if str_eq name "sink.ntfy.queue_capacity"
      then pos_int n (λ v. record p { sink_ntfy_queue_capacity = v })
      else if str_eq name "sink.influx.queue_capacity"
      then pos_int n (λ v. record p { sink_influx_queue_capacity = v })
      else if str_eq name "subscribe.queue_capacity"
      then pos_int n (λ v. record p { subscribe_queue_capacity = v })
      else if str_eq name "stable.buffer_capacity"
      then pos_int n (λ v. record p { stable_buffer_capacity = v })
      else if str_eq name "index.max_entries_per_shard"
      then pos_int n (λ v. record p { index_max_entries_per_shard = v })
      else if str_eq name "shard.ring_events"
      then pos_int n (λ v. record p { shard_ring_events = v })
      else if str_eq name "shard.ring_bytes"
      then pos_int n (λ v. record p { shard_ring_bytes = v })
      else if str_eq name "engine.shards"
      then pos_int n (λ v. record p { shards = v })
      else if str_eq name "self.interval"
      then pos_duration (strconv.parse_duration value 1000000000)
          (λ v. record p { self_interval = v })
      else err unknown_parameter

  -- Params.Set: the changed parameters, or the error.
  unfoldable pub set_param : String → Params → Result SetError Params
  unfolding set_named trim_space
  set_param pair p =
      let at = find pair "=" in
      if ltb (len pair) at
      then err no_equals_sign
      else set_named (trim_space (slice pair 0 at)) (trim_space (slice pair (at + 1) (len pair))) p
