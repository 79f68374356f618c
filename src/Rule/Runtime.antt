-- ===== src/Rule/Runtime.antt =====
-- runtime.go, and what a Runtime holds: the live nodes of its instances, its timers, its clock, and
-- the events that have reached sink leaves.
-- A live node is a cell at an address, as a Go node is an object behind a pointer: an instance of a
-- tree is a run of cells, a node's own first and then those of its children. Fork objects have
-- addresses of their own. Nothing frees a cell, and an address is never used again.
use riemann_go.Base.{
  ℕ, suc, ◌+◌, ◌≡◌, ◌↔◌, Bool, true, false, ◌&&◌, Option, List, String, str_eq, eq_iff, ◌==◌,
  get_or, set, add64, sub64, arith,
}
use riemann_go.Base.Assoc.{Eq, Assoc, lookup, insert}
use riemann_go.Event.{Event, Fields, default_to}
use riemann_go.Timers.{Timers}
use riemann_go.Rule.Tree.{
  Template, sink_node, where_node, by_node, changed_state_node, throttle_node, splitp_node,
  set_node, coalesce_node, ddt_node, stable_node, Templates, no_more, also, Branches, no_branch,
  branch, Compiled,
}

pub record Frame (F : Type 0) : Type 0 where
  pub prior_state : Option String
  pub events : Option (List (Fields F))

pub record Fork : Type 0 where
  pub parent : Option ℕ
  pub armed : ℕ

-- An entry of a by node's map: its fork, and the address of its first child.
pub record ForkEntry : Type 0 where
  pub fork : ℕ
  pub base : ℕ

pub record Throttle (F : Type 0) : Type 0 where
  pub open_window : Bool
  pub window_end : F
  pub count : ℕ

pub record Stable (F : Type 0) : Type 0 where
  pub have_last : Bool
  pub last : String
  pub buffer : List (Event F)
  pub stable : Bool
  pub gen : ℕ

-- The state of a live node; `stateless` for where, set, splitp and sink.
pub data Cell (F : Type 0) : Type 0 where
  stateless : Cell F
  forks : Assoc String ForkEntry → Cell F
  prev_state : String → Cell F
  window : Throttle F → Cell F
  held : Assoc String (Event F) → Cell F
  prev_event : Option (Event F) → Cell F
  settling : Stable F → Cell F

-- What a stable node's timer runs, with what the closure captures; `nil_func` is the zero value.
pub data Callback (F Pr : Type 0) : Type 0 where
  nil_func : Callback F Pr
  release_timer :
      Compiled F Pr → Option ℕ → String → Templates F Pr → ℕ → ℕ → Frame F → Callback F Pr

pub record Emitted (F : Type 0) : Type 0 where
  pub rule : String
  pub version : ℕ
  pub owner : String
  pub sink : String
  pub path : String
  pub event : Event F
  pub prior_state : Option String

pub data CounterKind : Type 0 where
  passed discarded forks_live forks_freed : CounterKind

pub record CounterKey : Type 0 where
  pub rule : String
  pub version : ℕ
  pub kind : CounterKind
  pub path : String

abbrev pub kind_eq : CounterKind → CounterKind → Bool
kind_eq passed passed = true
kind_eq discarded discarded = true
kind_eq forks_live forks_live = true
kind_eq forks_freed forks_freed = true
kind_eq _ _ = false

abbrev pub counter_eq : CounterKey → CounterKey → Bool
counter_eq a b =
    kind_eq a.kind b.kind && a.version == b.version && str_eq a.rule b.rule && str_eq a.path b.path

pub kind_eq_iff : (a b : CounterKind) → (kind_eq a b ≡ true) ↔ (a ≡ b)
kind_eq_iff a b = ground arith

pub counter_eq_iff : (a b : CounterKey) → (counter_eq a b ≡ true) ↔ (a ≡ b)
counter_eq_iff a b =
    ground (arith, kind_eq_iff a.kind b.kind, eq_iff a.rule b.rule, eq_iff a.path b.path)

instance abbrev pub counter_instance : Eq CounterKey
counter_instance = record { beq = counter_eq; beq_iff = counter_eq_iff }

pub record Rt (F Pr : Type 0) : Type 0 where
  pub now : F
  pub tm : Timers F (Callback F Pr)
  pub cells : List (Cell F)
  pub fork_cells : List Fork
  pub counters : Assoc CounterKey ℕ
  pub emitted : List (Emitted F)

module _ {F Pr : Type 0} where
  abbrev pub counter : CounterKey → Rt F Pr → ℕ
  counter k w = default_to 0 (lookup k w.counters)

  abbrev pub key_at : Compiled F Pr → CounterKind → String → CounterKey
  key_at c kind path = record { rule = c.id; version = c.version; kind = kind; path = path }

  -- atomic.Int64.Add of n
  unfoldable pub bump : Compiled F Pr → CounterKind → String → ℕ → Rt F Pr → Rt F Pr
  bump c kind path n w = record w {
    counters = insert (key_at c kind path) (add64 (counter (key_at c kind path) w) n) w.counters;
  }

  -- Add(-1)
  unfoldable pub unbump : Compiled F Pr → CounterKind → String → Rt F Pr → Rt F Pr
  unbump c kind path w = record w {
    counters = insert (key_at c kind path) (sub64 (counter (key_at c kind path) w) 1) w.counters;
  }

  abbrev pub cell_at : Rt F Pr → ℕ → Cell F
  cell_at w a = get_or w.cells a stateless

  abbrev pub write : ℕ → Cell F → Rt F Pr → Rt F Pr
  write a cell w = record w { cells = set w.cells a cell }

unfoldable mutual
  -- The number of cells of an instance.
  pub size_of : {F Pr : Type 0} → Template F Pr → ℕ
  size_of (sink_node p s) = 1
  size_of (where_node p e ts) = suc (sizes_of ts)
  size_of (by_node p f b ts) = 1
  size_of (changed_state_node p i ts) = suc (sizes_of ts)
  size_of (throttle_node p l d ts) = suc (sizes_of ts)
  size_of (splitp_node p bs o) = suc (branch_sizes bs + size_of o)
  size_of (set_node p fs ts) = suc (sizes_of ts)
  size_of (coalesce_node p ts) = suc (sizes_of ts)
  size_of (ddt_node p ts) = suc (sizes_of ts)
  size_of (stable_node p d f ts) = suc (sizes_of ts)

  pub sizes_of : {F Pr : Type 0} → Templates F Pr → ℕ
  sizes_of no_more = 0
  sizes_of (also t ts) = size_of t + sizes_of ts

  pub branch_sizes : {F Pr : Type 0} → Branches F Pr → ℕ
  branch_sizes no_branch = 0
  branch_sizes (branch e t bs) = size_of t + branch_sizes bs
