-- ===== src/Rule/Steps.antt =====
-- nodes.go: what the stateful nodes decide from their own state and the event, and their first state.
use riemann_go.Base.{
  ℕ, Bool, true, false, ◌&&◌, ◌||◌, not, Option, none, some, List, [], ◌∷◌, ◌++◌, map, String,
  str_eq, ◌<>◌, ltb, leb, if◌then◌else◌, length, add64, half_word, drop,
}
use riemann_go.Base.Float.{Float, pos}
use riemann_go.Base.Assoc.{Assoc, insert, string_eq}
use riemann_go.Event.{Event, Fields, as_map, expired_state, field_key, join}
use riemann_go.Rule.Tree.{
  Template, sink_node, where_node, by_node, changed_state_node, throttle_node, splitp_node,
  set_node, coalesce_node, ddt_node, stable_node, Templates, no_more, also, Branches, no_branch,
  branch,
}
use riemann_go.Rule.Runtime.{
  Throttle, Stable, Cell, stateless, forks, prev_state, window, held, prev_event, settling,
}

-- stableNode.Process, by its four outcomes.
pub data StableAction : Type 0 where
  -- the value changed: so many buffered events are discarded, and a timer is armed
  arm : ℕ → StableAction
  -- the value is stable: the event passes
  pass_event : StableAction
  -- the event is buffered, after so many were dropped from the buffer's front
  hold : ℕ → StableAction
  -- likewise, and the buffer is released
  hold_and_release : ℕ → StableAction

module _ {F : Type 0} ⦃fl : Float F⦄ where
  -- byNode.key
  unfoldable pub fork_key : List String → Event F → String
  fork_key (f ∷ []) ev = field_key ev f
  fork_key fields ev = join "\u{1f}" (map (field_key ev) fields)

  -- changedStateNode.Process: the new state, and the prior one if the event passes.
  unfoldable pub changed_step : String → Event F → String × Option String
  changed_step prev ev = if str_eq ev.state prev then (prev, none) else (ev.state, some prev)

  -- `n.count++` and the test against the limit. The count is an int, by its 64 bits; a negative one is
  -- below every limit.
  unfoldable pub throttle_count : ℕ → Throttle F → Throttle F × Bool
  throttle_count limit t =
      let count = add64 t.count 1 in
      (record t { count = count }, leb half_word count || leb count limit)

  -- throttleNode.Process: whether the event passes.
  unfoldable pub throttle_step : ℕ → F → Throttle F → Event F → Throttle F × Bool
  unfolding throttle_count
  throttle_step limit span t ev = throttle_count limit (
      if not t.open_window || fl.fle t.window_end ev.time
      then record { open_window = true; window_end = fl.fadd ev.time span; count = 0 }
      else t)

  ddt_rate : Option F → Event F → Option (Event F) → Option (Event F)
  ddt_rate none ev prev = none
  ddt_rate (some m) ev none = none
  ddt_rate (some m) ev (some p) = elim p.metric [
    | none ↦ none
    | some pm ↦
        let dt = fl.fsub ev.time p.time in
        if fl.feq dt (fl.of_ℤ (pos 0))
        then none
        else some (record ev { metric = some (fl.fdiv (fl.fsub m pm) dt) })
  ]

  -- ddtNode.Process: the event kept, and the one that passes. A kept event has a metric.
  unfoldable pub ddt_step : Option (Event F) → Event F → Option (Event F) × Option (Event F)
  unfolding ddt_rate
  ddt_step prev ev = (elim ev.metric [ none ↦ prev | some m ↦ some ev ], ddt_rate ev.metric ev prev)

  unfoldable pub is_gone : F → Event F → Bool
  is_gone now e = str_eq e.state expired_state || fl.flt (fl.fadd e.time e.ttl) now

  maps_of : Assoc String (Event F) → List (Fields F)
  maps_of [] = []
  maps_of ((k, e) ∷ m) = as_map e ∷ maps_of m

  still_held : F → Assoc String (Event F) → Assoc String (Event F)
  still_held now [] = []
  still_held now ((k, e) ∷ m) =
      let rest = still_held now m in if is_gone now e then rest else (k, e) ∷ rest

  abbrev pub identity : Event F → String
  identity ev = ev.host <> ("\u{1f}" <> ev.service)

  -- coalesceNode.Process: what is held from now on, and the set that is emitted. The identities to
  -- remove are collected first and deleted after; keys are distinct, so that is a filter.
  unfoldable pub coalesce_step :
      F → Assoc String (Event F) → Event F → Assoc String (Event F) × List (Fields F)
  unfolding maps_of still_held is_gone
  coalesce_step now m ev = let m' = insert (identity ev) ev m in (still_held now m', maps_of m')

  abbrev pub dropped_for : ℕ → List (Event F) → ℕ
  dropped_for capacity buffer = if ltb 0 capacity && leb capacity (length buffer) then 1 else 0

  unfoldable pub settled : F → Event F → List (Event F) → Bool
  settled duration ev [] = false
  settled duration ev (first ∷ _) = fl.fle duration (fl.fsub ev.time first.time)

  unfoldable pub hold_step : F → ℕ → Stable F → Event F → Stable F × StableAction
  unfolding settled
  hold_step duration capacity s ev =
      let n = dropped_for capacity s.buffer in
      let buffer = drop n s.buffer ++ ev ∷ [] in
      if settled duration ev buffer
      then (record s { buffer = buffer; gen = add64 s.gen 1 }, hold_and_release n)
      else (record s { buffer = buffer }, hold n)

  unfoldable pub stable_step : F → String → ℕ → Stable F → Event F → Stable F × StableAction
  unfolding hold_step
  stable_step duration field capacity s ev =
      let v = field_key ev field in
      if not s.have_last || not (str_eq v s.last)
      then (
        record {
          have_last = true;
          last = v;
          buffer = ev ∷ [];
          stable = false;
          gen = add64 s.gen 1;
        },
        arm (length s.buffer),
      )
      else if s.stable
      then (s, pass_event)
      else hold_step duration capacity s ev

-- instantiate and newBase: the cells of a new instance, a node's own before its children's. A by node
-- instantiates its children only when a key arrives.
module _ {F : Type 0} ⦃fl : Float F⦄ where
  abbrev pub first_stable : Stable F
  first_stable = record { have_last = false; last = ""; buffer = []; stable = false; gen = 0 }

  abbrev pub first_throttle : Throttle F
  first_throttle = record { open_window = false; window_end = fl.of_ℤ (pos 0); count = 0 }

unfoldable mutual
  pub instantiate : {F Pr : Type 0} ⦃fl : Float F⦄ → Template F Pr → List (Cell F)
  instantiate (sink_node p s) = stateless ∷ []
  instantiate (where_node p e ts) = stateless ∷ instantiate_all ts
  instantiate (by_node p f b ts) = forks [] ∷ []
  instantiate (changed_state_node p i ts) = prev_state i ∷ instantiate_all ts
  instantiate (throttle_node p l d ts) = window first_throttle ∷ instantiate_all ts
  instantiate (splitp_node p bs o) = stateless ∷ (instantiate_branches bs ++ instantiate o)
  instantiate (set_node p fs ts) = stateless ∷ instantiate_all ts
  instantiate (coalesce_node p ts) = held [] ∷ instantiate_all ts
  instantiate (ddt_node p ts) = prev_event none ∷ instantiate_all ts
  instantiate (stable_node p d f ts) = settling first_stable ∷ instantiate_all ts

  pub instantiate_all : {F Pr : Type 0} ⦃fl : Float F⦄ → Templates F Pr → List (Cell F)
  instantiate_all no_more = []
  instantiate_all (also t ts) = instantiate t ++ instantiate_all ts

  pub instantiate_branches : {F Pr : Type 0} ⦃fl : Float F⦄ → Branches F Pr → List (Cell F)
  instantiate_branches no_branch = []
  instantiate_branches (branch e t bs) = instantiate t ++ instantiate_branches bs
