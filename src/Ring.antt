-- ===== src/Ring.antt =====
-- internal/engine/ring.go: the buffer of recent events of a partition, bounded by a number of events
-- and a number of bytes. `none` is the zero RingEntry. Byte counts are int64: `bytes` is the sum of
-- the sizes of events in memory, so that neither it nor bytes + size wraps.
pub mod Contents
pub mod Bounds
use riemann_go.Base.{
  ℕ, zero, suc, ◌+◌, ◌-◌, ◌%◌, Bool, true, false, ◌&&◌, ◌||◌, Option, none, some, List, [], ◌∷◌,
  ltb, leb, if◌then◌else◌, length, get_or, set, replicate,
}
use riemann_go.Event.{Event, size}

pub record RingEntry (F : Type 0) : Type 0 where
  pub seq : ℕ
  pub event : Event F
  pub size : ℕ

pub record Ring (F : Type 0) : Type 0 where
  pub buf : List (Option (RingEntry F))
  pub head : ℕ
  pub n : ℕ
  pub bytes : ℕ
  pub max_events : ℕ
  pub max_bytes : ℕ

module _ {F : Type 0} where
  unfoldable pub new_ring : ℕ → ℕ → Ring F
  new_ring max_events max_bytes = record {
    buf = replicate max_events none;
    head = 0;
    n = 0;
    bytes = 0;
    max_events = max_events;
    max_bytes = max_bytes;
  }

  abbrev pub size_of : Option (RingEntry F) → ℕ
  size_of none = 0
  size_of (some e) = e.size

  -- The test of the loop of add, past `r.n > 0`: an event of `s` bytes does not fit.
  abbrev pub is_full : ℕ → Ring F → Bool
  is_full s r = leb r.max_events r.n || ltb r.max_bytes (r.bytes + s)

  -- The body of the loop.
  unfoldable pub drop_oldest : Ring F → Ring F
  drop_oldest r = record r {
    bytes = r.bytes - size_of (get_or r.buf r.head none);
    buf = set r.buf r.head none;
    head = (r.head + 1) % r.max_events;
    n = r.n - 1;
  }

  -- The loop; each round takes one event, so `n` rounds are enough.
  unfoldable pub evict : ℕ → ℕ → Ring F → Ring F
  unfolding drop_oldest
  evict zero s r = r
  evict (suc fuel) s r =
      let rest = evict fuel s (drop_oldest r) in if ltb 0 r.n && is_full s r then rest else r

  -- What follows the loop.
  unfoldable pub store : RingEntry F → Ring F → Ring F
  store e r = if leb r.max_events r.n then r else record r {
    buf = set r.buf ((r.head + r.n) % r.max_events) (some e);
    n = r.n + 1;
    bytes = r.bytes + e.size;
  }

  unfoldable pub add : ℕ → Event F → Ring F → Ring F
  unfolding evict store
  add seq ev r =
      let s = size ev in store (record { seq = seq; event = ev; size = s }) (evict r.n s r)

  -- out[i] = buf[(head + i) % maxEvents]
  snapshot_from : Ring F → ℕ → ℕ → List (Option (RingEntry F))
  snapshot_from r i zero = []
  snapshot_from r i (suc k) =
      get_or r.buf ((r.head + i) % r.max_events) none ∷ snapshot_from r (suc i) k

  unfoldable pub snapshot : Ring F → List (Option (RingEntry F))
  unfolding snapshot_from
  snapshot r = snapshot_from r 0 r.n

  unfoldable pub stats : Ring F → ℕ × ℕ
  stats r = (r.n, r.bytes)
