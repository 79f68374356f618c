-- ===== src/Tests/Samples.antt =====
-- Test data: float64 as a NaN and the natural numbers, a virtual machine of three programs, and
-- samples of events, rules and engines.
use riemann_go.Base.{
  ℕ, ◌+◌, ◌-◌, ◌/◌, ◌≡◌, refl, ◌⊎◌, inl, inr, Bool, true, false, not, Option, none, some, [], ◌∷◌,
  String, ltb, leb, ◌==◌, arith, Bool-cases,
}
use riemann_go.Base.Float.{Float, pos, negsuc}
use riemann_go.Base.Assoc.{string_eq, lookup}
use riemann_go.Event.{Event, Value, bool, EnvEntry, value}
use riemann_go.Rule.{Vm, sink_node, changed_state_node, also, no_more, Compiled, Emitted}
use riemann_go.Engine.{Engine, new_engine}
use riemann_go.Params.{Params}

pub data Tick : Type 0 where
  nan : Tick
  tick : ℕ → Tick

abbrev pub tick_lt : Tick → Tick → Bool
tick_lt (tick a) (tick b) = ltb a b
tick_lt _ _ = false

abbrev pub tick_le : Tick → Tick → Bool
tick_le (tick a) (tick b) = leb a b
tick_le _ _ = false

abbrev pub tick_eq : Tick → Tick → Bool
tick_eq (tick a) (tick b) = a == b
tick_eq _ _ = false

abbrev pub tick_nan : Tick → Bool
tick_nan nan = true
tick_nan (tick a) = false

abbrev tick_with : (ℕ → ℕ → ℕ) → Tick → Tick → Tick
tick_with f (tick a) (tick b) = tick (f a b)
tick_with f _ _ = nan

pub tick_lt_trans : (a b c : Tick) → tick_lt a b ≡ true → tick_lt b c ≡ true → tick_lt a c ≡ true
tick_lt_trans a b c h k = ground arith

pub tick_lt_split :
    (a b c : Tick)
    → tick_nan b ≡ false
    → tick_lt a c ≡ true
    → (tick_lt a b ≡ true) ⊎ (tick_lt b c ≡ true)
tick_lt_split a b c h k = elim (Bool-cases (tick_lt a b)) [
  | inl e ↦ inl e
  | inr e ↦ inr (ground arith)
]

instance abbrev pub tick_float : Float Tick
tick_float = record {
  flt = tick_lt;
  fle = tick_le;
  feq = tick_eq;
  fadd = tick_with ◌+◌;
  fsub = tick_with ◌-◌;
  fdiv = tick_with ◌/◌;
  is_nan = tick_nan;
  is_finite = λ a. not (tick_nan a);
  finite_nan = λ a h. ground arith;
  of_ℤ = λ z. elim z [ pos n ↦ tick n | negsuc n ↦ nan ];
  format_g = λ x. "";
  flt_nan = λ a b h. ground arith;
  flt_irrefl = λ a. ground arith;
  flt_trans = tick_lt_trans;
  flt_split = tick_lt_split;
  fle_of = λ a b h k l. ground arith;
  fle_flt = λ a b h. ground arith;
  feq_of = λ a b h k l m. ground arith;
  feq_flt = λ a b h. ground arith;
  zero_lt_one = refl;
}

-- A program that answers true, one that answers the event's state, and one that fails.
pub data Program : Type 0 where
  always state_of failing : Program

abbrev entry_value : Option (EnvEntry Tick) → Option (Value Tick)
entry_value (some (value v)) = some v
entry_value _ = none

instance abbrev pub sample_vm : Vm Tick Program
sample_vm = record {
  run = λ p e. elim p [
    | always ↦ some (bool true)
    | state_of ↦ entry_value (lookup "state" e)
    | failing ↦ none
  ];
  sprint = λ v. "";
}

abbrev pub event_at : String → String → ℕ → Event Tick
event_at service state time = record {
  host = "web1";
  service = service;
  state = state;
  metric = some (tick 3);
  time = tick time;
  ttl = tick 10;
  tags = [];
  attributes = [];
  description = "";
  source = "";
  expired = false;
}

abbrev pub sample_rule : String → String → Compiled Tick Program
sample_rule id hash = record {
  id = id;
  owner = "ops";
  partition = "host";
  match = always;
  enabled = true;
  expires_at = tick 0;
  has_expiry = false;
  version = 0;
  hash = hash;
  root = changed_state_node "stream" "ok" (also (sink_node "stream/0" "ntfy") no_more);
  has_coalesce = false;
  paths = "stream" ∷ "stream/0" ∷ [];
  opts = record { stable_buffer_capacity = 2 };
}

abbrev pub sample_params : Params
sample_params = record {
  ingest_max_inflight_requests = 4;
  ingest_max_batch_events = 10;
  ingest_max_batch_bytes = 1000;
  ingest_admission_deadline = 200;
  shard_inbox_capacity = 2;
  sink_ntfy_queue_capacity = 2;
  sink_influx_queue_capacity = 2;
  subscribe_queue_capacity = 1;
  stable_buffer_capacity = 2;
  index_max_entries_per_shard = 3;
  shard_ring_events = 2;
  shard_ring_bytes = 1000;
  shards = 2;
  self_interval = 10;
}

abbrev pub sample_engine : Engine Tick Program
sample_engine = new_engine sample_params

abbrev pub firing_of : String → Event Tick → Emitted Tick
firing_of sink ev = record {
  rule = "disk";
  version = 1;
  owner = "ops";
  sink = sink;
  path = "stream/0";
  event = ev;
  prior_state = none;
}
