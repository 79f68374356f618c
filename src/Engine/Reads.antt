-- ===== src/Engine/Reads.antt =====
-- internal/engine: IndexLookup, IndexQuery with AsOf, RecentEvents and indexSnapshot (engine.go), DryRun
-- (dryrun.go). The clock's reading is an argument. A query is none when it is
-- empty, and else the program that it compiles to.
use riemann_go.Base.{
  ℕ, zero, suc, ◌-◌, Bool, true, false, ◌||◌, not, Option, none, some, List, [], ◌∷◌, ◌++◌, String,
  str_eq, compare_str, ltb, ◌==◌, if◌then◌else◌, length, get_or, drop,
}
use riemann_go.Base.Float.{Float, pos}
use riemann_go.Base.Assoc.{string_eq}
use riemann_go.Event.{Event}
use riemann_go.Index
use riemann_go.Index.{Index}
use riemann_go.Ring
use riemann_go.Ring.{RingEntry}
use riemann_go.Rule.{Vm, Compiled, Instance, Rt, Emitted, new_instance, offer, fire_timers}
use riemann_go.Engine.State.{Loop, Engine, new_runtime}
use riemann_go.Engine.Routing.{shard_for}
use riemann_go.Engine.Subs.{holds, select}
use text.Mathlib.Text.{is_lt}

-- sort.Slice, by insertion
unfoldable pub insert_by : {A : Type 0} → (A → A → Bool) → A → List A → List A
insert_by less a [] = a ∷ []
insert_by less a (b ∷ bs) = if less a b then a ∷ b ∷ bs else b ∷ insert_by less a bs

unfoldable pub sort_by : {A : Type 0} → (A → A → Bool) → List A → List A
unfolding insert_by
sort_by less [] = []
sort_by less (a ∷ rest) = insert_by less a (sort_by less rest)

abbrev pub by_seq : {F : Type 0} → RingEntry F → RingEntry F → Bool
by_seq a b = ltb a.seq b.seq

abbrev pub by_identity : {F : Type 0} → Event F → Event F → Bool
by_identity a b =
    if not (str_eq a.host b.host)
    then is_lt (compare_str a.host b.host)
    else is_lt (compare_str a.service b.service)

-- AsOf bounds the instants at which IndexQuery has read the shards.
pub record AsOf (F : Type 0) : Type 0 where
  pub min : F
  pub max : F

module _ {F : Type 0} ⦃fl : Float F⦄ where
  -- A round of the loop over the shards; the first sets the minimum.
  widen : Bool → F → AsOf F → AsOf F
  widen is_first t a = record {
    min = if is_first || fl.flt t a.min then t else a.min;
    max = if fl.flt a.max t then t else a.max;
  }

  widen_all : List F → AsOf F → AsOf F
  unfolding widen
  widen_all [] a = a
  widen_all (t ∷ ts) a = widen_all ts (widen false t a)

  unfoldable pub as_of : List F → AsOf F
  unfolding widen widen_all
  as_of [] = record { min = fl.of_ℤ (pos 0); max = fl.of_ℤ (pos 0) }
  as_of (t ∷ ts) =
      widen_all ts (widen true t (record { min = fl.of_ℤ (pos 0); max = fl.of_ℤ (pos 0) }))

module _ {F : Type 0} where
  unfoldable pub entries_of : List (Option (RingEntry F)) → List (RingEntry F)
  entries_of [] = []
  entries_of (none ∷ es) = entries_of es
  entries_of (some e ∷ es) = e ∷ entries_of es

  unfoldable pub latest : ℕ → List (Event F) → List (Event F)
  latest limit es = if ltb limit (length es) then drop (length es - limit) es else es

module _ {F Pr : Type 0} ⦃fl : Float F⦄ where
  unfoldable pub index_lookup : String → String → F → Engine F Pr → Option (Event F)
  index_lookup host service now e =
      elim (get_or e.shards (shard_for (length e.shards) host) e.global).idx [
        | none ↦ none
        | some x ↦ Index.lookup_event host service now x
      ]

  shard_snapshot : F → Loop F Pr → List (Event F)
  shard_snapshot now l = elim l.idx [ none ↦ [] | some x ↦ Index.snapshot now x ]

  snapshots : F → List (Loop F Pr) → List (Event F)
  unfolding shard_snapshot
  snapshots now [] = []
  snapshots now (l ∷ ls) = shard_snapshot now l ++ snapshots now ls

  unfoldable pub index_snapshot : F → Engine F Pr → List (Event F)
  unfolding snapshots
  index_snapshot now e = snapshots now e.shards

  ring_entries : List (Loop F Pr) → List (RingEntry F)
  unfolding entries_of
  ring_entries [] = []
  ring_entries (l ∷ ls) =
      elim l.ring [ none ↦ [] | some r ↦ entries_of (Ring.snapshot r) ] ++ ring_entries ls

  -- The rings' entries in processing order.
  unfoldable pub replayed : Engine F Pr → List (RingEntry F)
  unfolding ring_entries sort_by
  replayed e = sort_by by_seq (ring_entries e.shards)

module _ {F Pr : Type 0} ⦃fl : Float F⦄ ⦃vm : Vm F Pr⦄ where
  query_shards : Option Pr → List F → List (Loop F Pr) → List (Event F)
  unfolding select shard_snapshot
  query_shards q ts [] = []
  query_shards q [] (l ∷ ls) = []
  query_shards q (t ∷ ts) (l ∷ ls) = select q t (shard_snapshot t l) ++ query_shards q ts ls

  -- The events of IndexQuery, at the instants `ts` at which it reads the clock, one for each shard.
  unfoldable pub index_query : Option Pr → List F → Engine F Pr → List (Event F)
  unfolding query_shards sort_by
  index_query q ts e = sort_by by_identity (query_shards q ts e.shards)

  matching : Option Pr → F → F → List (RingEntry F) → List (Event F)
  unfolding holds
  matching q since now [] = []
  matching q since now (re ∷ es) =
      let rest = matching q since now es in
      if fl.flt re.event.time since || not (holds q re.event now) then rest else re.event ∷ rest

  -- none: the limit is not positive
  unfoldable pub recent_events : Option Pr → F → ℕ → F → Engine F Pr → Option (List (Event F))
  unfolding matching latest replayed
  recent_events q since limit now e =
      if limit == 0 then none else some (latest limit (matching q since now (replayed e)))

  new_instances : Compiled F Pr → ℕ → Rt F Pr → List (Instance F Pr) × Rt F Pr
  unfolding new_instance
  new_instances c zero w = ([], w)
  new_instances c (suc k) w =
      let (i, w₁) = new_instance c w in let (is, w₂) = new_instances c k w₁ in (i ∷ is, w₂)

  -- The instance that takes an event of a host.
  abbrev chosen : ℕ → List (Instance F Pr) → String → Option (Instance F Pr)
  chosen shards [] host = none
  chosen shards (i ∷ []) host = some i
  chosen shards (i ∷ is) host = some (get_or (i ∷ is) (shard_for shards host) i)

  unfoldable pub replay : ℕ → ℕ → List (Instance F Pr) → List (RingEntry F) → Rt F Pr → Rt F Pr
  unfolding offer fire_timers
  replay fuel shards is [] w = w
  replay fuel shards is (re ∷ es) w =
      let fired = fire_timers fuel re.event.time (record w { now = re.event.time }) in
      replay fuel shards is es
        (elim (chosen shards is re.event.host) [ none ↦ fired | some i ↦ offer i re.event fired ])

  -- DryRun, of a rule that compiled: the firings of the stubs.
  unfoldable pub dry_run : ℕ → Compiled F Pr → Engine F Pr → List (Emitted F)
  unfolding new_instances replay replayed
  dry_run fuel c e =
      let n = if str_eq c.partition "global" then 1 else length e.shards in
      let (is, w) = new_instances c n new_runtime in
      let done = replay fuel (length e.shards) is (replayed e) w in done.emitted
