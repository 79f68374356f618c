-- ===== src/SinkQueue.antt =====
-- internal/engine/queue.go: the bounded queue between the loops and a sink worker.
-- The queue only moves its firings, so their type is a parameter; `none` is the zero Firing that a
-- slot holds before it is written and after it is read. Each function below is one critical section
-- of the mutex: Run is `take_batch`, the delivery outside the lock, and `settle`. The counters are
-- 64-bit and wrap. The capacity is the length of a slice in memory, so head + n does not wrap.
pub mod Contents
pub mod Accounting
pub mod Worker
pub mod Run
use riemann_go.Base.{
  ℕ, zero, suc, ◌+◌, ◌-◌, ◌%◌, Bool, true, false, ◌&&◌, Option, none, some, List, [], ◌∷◌, String,
  ltb, ◌==◌, if◌then◌else◌, length, get_or, set, replicate, add64, sub64,
}

pub record SinkQueue {ℓ} (A : Type ℓ) : Type ℓ where
  pub name : String
  pub buf : List (Option A)
  pub head : ℕ
  pub n : ℕ
  pub accepted : ℕ
  pub processed : ℕ
  pub dropped : ℕ
  pub failed : ℕ
  pub in_flight : ℕ
  pub closed : Bool

pub record SinkStats : Type 0 where
  pub name : String
  pub depth : ℕ
  pub capacity : ℕ
  pub accepted : ℕ
  pub processed : ℕ
  pub dropped : ℕ
  pub failed : ℕ
  pub in_flight : ℕ

-- accepted - (processed + dropped + queued + in_flight), as an int64
unfoldable pub residual : SinkStats → ℕ
residual s = sub64 s.accepted (add64 (add64 (add64 s.processed s.dropped) s.depth) s.in_flight)

-- `if maxBatch < 1 { maxBatch = 1 }`
abbrev pub batch_limit : ℕ → ℕ
batch_limit max_batch = if ltb max_batch 1 then 1 else max_batch

module _ {ℓ} {A : Type ℓ} where
  unfoldable pub new_sink_queue : String → ℕ → SinkQueue A
  new_sink_queue name capacity = record {
    name = name;
    buf = replicate capacity none;
    head = 0;
    n = 0;
    accepted = 0;
    processed = 0;
    dropped = 0;
    failed = 0;
    in_flight = 0;
    closed = false;
  }

  unfoldable pub offer : A → SinkQueue A → SinkQueue A
  offer f q =
      if q.n == length q.buf
      then record q { accepted = add64 q.accepted 1; dropped = add64 q.dropped 1 }
      else record q {
        accepted = add64 q.accepted 1;
        buf = set q.buf ((q.head + q.n) % length q.buf) (some f);
        n = q.n + 1;
      }

  unfoldable pub reject : SinkQueue A → SinkQueue A
  reject q = record q { accepted = add64 q.accepted 1; dropped = add64 q.dropped 1 }

  -- `for i := 0; i < k; i++`: the batch, the buffer and the head
  unfoldable pub drain : ℕ → List (Option A) → ℕ → List (Option A) × List (Option A) × ℕ
  drain zero buf head = ([], buf, head)
  drain (suc k) buf head =
      let (batch, buf', head') = drain k (set buf head none) ((head + 1) % length buf) in
      (get_or buf head none ∷ batch, buf', head')

  unfoldable pub batch_size : ℕ → SinkQueue A → ℕ
  batch_size max_batch q = if ltb (batch_limit max_batch) q.n then batch_limit max_batch else q.n

  -- The first critical section of a round of Run, when it neither waits nor returns.
  unfoldable pub take_batch : ℕ → SinkQueue A → List (Option A) × SinkQueue A
  unfolding batch_size
  take_batch max_batch q =
      let k = batch_size max_batch q in
      let (batch, buf, head) = drain k q.buf q.head in
      (batch, record q { buf = buf; head = head; n = q.n - k; in_flight = add64 q.in_flight k })

  -- The second one: `delivered` is `err == nil`.
  unfoldable pub settle : ℕ → Bool → SinkQueue A → SinkQueue A
  settle k delivered q =
      if delivered
      then record q { in_flight = sub64 q.in_flight k; processed = add64 q.processed k }
      else record q {
        in_flight = sub64 q.in_flight k;
        dropped = add64 q.dropped k;
        failed = add64 q.failed k;
      }

  unfoldable pub close : SinkQueue A → SinkQueue A
  close q = record q { closed = true }

  unfoldable pub stats : SinkQueue A → SinkStats
  stats q = record {
    name = q.name;
    depth = q.n;
    capacity = length q.buf;
    accepted = q.accepted;
    processed = q.processed;
    dropped = q.dropped;
    failed = q.failed;
    in_flight = q.in_flight;
  }

  -- Run with no other goroutine in between, until it waits or returns: the delivered batches in
  -- order, and the queue. `deliver` answers whether the sink took the batch.
  unfoldable pub run :
      ℕ → ℕ → (List (Option A) → Bool) → SinkQueue A → List (List (Option A)) × SinkQueue A
  unfolding take_batch settle
  run zero max_batch deliver q = ([], q)
  run (suc fuel) max_batch deliver q =
      let taken = take_batch max_batch q in
      let rest = run fuel max_batch deliver (settle (length taken.0) (deliver taken.0) taken.1) in
      elim (q.n == 0) [ true ↦ ([], q) | false ↦ (taken.0 ∷ rest.0, rest.1) ]
