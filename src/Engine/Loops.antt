-- ===== src/Engine/Loops.antt =====
-- internal/engine: emit and forwardGlobal (engine.go), dispatch, fireDue and control (loop.go).
-- A loop is named by its shard's number, the global one by none. A handler of a loop is one step: the
-- firings of its rules reach the sinks, in order, before the event is forwarded.
use riemann_go.Base.{
  ℕ, Bool, true, false, not, Option, none, some, List, [], ◌∷◌, ◌++◌, String, str_eq, ltb,
  if◌then◌else◌, length, add64, get_or, set,
}
use riemann_go.Base.Float.{Float, pos}
use riemann_go.Event.{Event, expired_state}
use riemann_go.Index
use riemann_go.Index.{Index, Due}
use riemann_go.Ring
use riemann_go.SinkQueue
use riemann_go.Rule.{Vm, Compiled, Instance, Rt, Emitted, new_instance, offer, fire_timers}
use riemann_go.Engine.State.{Loop, Engine, no_item, loop_at, put_loop}
use riemann_go.Engine.Routing.{shard_for}
use riemann_go.Engine.Subs.{publish}
use riemann_go.Engine.Placement.{place_rule, remove_rule}

unfoldable pub same : Bool → Bool → Bool
same true b = b
same false b = not b

module _ {F : Type 0} ⦃fl : Float F⦄ where
  unfoldable pub expiry_event : F → Due → Event F
  expiry_event now d = record {
    host = d.host;
    service = d.service;
    state = expired_state;
    metric = none;
    time = now;
    ttl = fl.of_ℤ (pos 0);
    tags = [];
    attributes = [];
    description = "";
    source = "";
    expired = true;
  }

module _ {F Pr : Type 0} ⦃fl : Float F⦄ where
  unfoldable pub index_event : ℕ → Event F → Engine F Pr → Engine F Pr
  index_event i ev e =
      let l = get_or e.shards i e.global in
      elim l.idx [
        | none ↦ e
        | some x ↦ record e {
          shards = set e.shards i (record l { idx = some (Index.insert_event no_item ev x).1 });
        }
      ]

  -- Engine.emit
  unfoldable pub emit_to : Emitted F → Engine F Pr → Engine F Pr
  unfolding index_event
  emit_to f e =
      if str_eq f.sink "index"
      then index_event (shard_for (length e.shards) f.event.host) f.event e
      else if str_eq f.sink "influx"
      then elim f.event.metric [
        | none ↦ record e { sink_influx = SinkQueue.reject e.sink_influx }
        | some m ↦ record e { sink_influx = SinkQueue.offer f e.sink_influx }
      ]
      else if str_eq f.sink "ntfy"
      then record e { sink_ntfy = SinkQueue.offer f e.sink_ntfy }
      else e

  unfoldable pub emit_all : List (Emitted F) → Engine F Pr → Engine F Pr
  unfolding emit_to
  emit_all [] e = e
  emit_all (f ∷ fs) e = emit_all fs (emit_to f e)

  -- The loop's firings, since it last gave them up.
  unfoldable pub drain_firings : Option ℕ → Engine F Pr → Engine F Pr
  unfolding emit_all
  drain_firings at e =
      let l = loop_at at e in
      emit_all l.rt.emitted (put_loop at (record l { rt = record l.rt { emitted = [] } }) e)

  -- A send on an inbox, if it has room.
  unfoldable pub try_send : Event F → Loop F Pr → Option (Loop F Pr)
  try_send ev l =
      if ltb (length l.inbox) l.inbox_capacity
      then some (record l { inbox = l.inbox ++ ev ∷ [] })
      else none

  unfoldable pub forward_global : Event F → Engine F Pr → Engine F Pr
  unfolding try_send
  forward_global ev e = elim (try_send ev e.global) [
    | some g ↦ record e { global = g }
    | none ↦ record e { global = record e.global { dropped = add64 e.global.dropped 1 } }
  ]

  -- `l.ring.add(l.eng.ringSeq.Add(1), ev)`
  unfoldable pub record_event : Option ℕ → Event F → Engine F Pr → Engine F Pr
  record_event at ev e =
      let l = loop_at at e in
      let seq = add64 e.ring_seq 1 in
      elim l.ring [
        | none ↦ e
        | some r ↦
            put_loop at (record l { ring = some (Ring.add seq ev r) }) (record e { ring_seq = seq })
      ]

  unfoldable pub is_global : Loop F Pr → Bool
  is_global l = elim l.shard_id [ none ↦ true | some i ↦ false ]

  -- control, of a rule to install
  unfoldable pub install : Compiled F Pr → Loop F Pr → Loop F Pr
  unfolding is_global same place_rule remove_rule new_instance
  install c l =
      let (inst, rt) = new_instance c l.rt in
      if same (str_eq c.partition "global") (is_global l)
      then record l { rt = rt; rules = place_rule inst l.rules }
      else record l { rules = remove_rule c.id l.rules }

  -- control, of an id to remove; an empty one would ask to install nothing
  unfoldable pub uninstall : String → Loop F Pr → Loop F Pr
  unfolding remove_rule
  uninstall id l = record l { rules = remove_rule id l.rules }

module _ {F Pr : Type 0} ⦃fl : Float F⦄ ⦃vm : Vm F Pr⦄ where
  unfoldable pub offer_all : List (Instance F Pr) → Event F → Rt F Pr → Rt F Pr
  unfolding offer
  offer_all [] ev w = w
  offer_all (r ∷ rs) ev w = offer_all rs ev (offer r ev w)

  -- The rules of a loop, at the clock `now`.
  unfoldable pub run_rules : Option ℕ → F → Event F → Engine F Pr → Engine F Pr
  unfolding offer_all drain_firings
  run_rules at now ev e =
      let l = loop_at at e in
      drain_firings at
        (put_loop at (record l { rt = offer_all l.rules ev (record l.rt { now = now }) }) e)

  unfoldable pub hand_on : Option ℕ → F → Event F → Engine F Pr → Engine F Pr
  unfolding forward_global
  hand_on none now ev e = e
  hand_on (some i) now ev e =
      let e₁ = forward_global ev e in record e₁ { subs = publish ev now e₁.subs }

  unfoldable pub count_processed : Option ℕ → Engine F Pr → Engine F Pr
  count_processed at e =
      let l = loop_at at e in put_loop at (record l { processed = add64 l.processed 1 }) e

  unfoldable pub dispatch : Option ℕ → F → Event F → Engine F Pr → Engine F Pr
  unfolding record_event run_rules hand_on count_processed
  dispatch at now ev e =
      count_processed at (hand_on at now ev (run_rules at now ev (record_event at ev e)))

  unfoldable pub update_index : Option ℕ → (Index F → Index F) → Engine F Pr → Engine F Pr
  update_index at change e =
      let l = loop_at at e in
      elim l.idx [ none ↦ e | some x ↦ put_loop at (record l { idx = some (change x) }) e ]

  -- Each expiry is dispatched, and then its entry removed.
  unfoldable pub expire_all : Option ℕ → F → List Due → Engine F Pr → Engine F Pr
  unfolding dispatch update_index expiry_event
  expire_all at now [] e = e
  expire_all at now (d ∷ ds) e =
      expire_all at now ds
        (update_index at (Index.remove_due d) (dispatch at now (expiry_event now d) e))

  unfoldable pub run_timers : Option ℕ → ℕ → F → Engine F Pr → Engine F Pr
  unfolding drain_firings
  run_timers at fuel now e =
      let l = loop_at at e in
      drain_firings at
        (put_loop at (record l { rt = fire_timers fuel now (record l.rt { now = now }) }) e)

  unfoldable pub fire_due : Option ℕ → ℕ → F → Engine F Pr → Engine F Pr
  unfolding run_timers expire_all update_index
  fire_due at fuel now e =
      let e₁ = run_timers at fuel now e in
      elim (loop_at at e₁).idx [
        | none ↦ e₁
        | some x ↦
            let (due, x') = Index.pop_due no_item now x in
            expire_all at now due (update_index at (λ _. x') e₁)
      ]

  -- The case of run that takes an event from the inbox.
  unfoldable pub take_event : Option ℕ → ℕ → F → Engine F Pr → Engine F Pr
  unfolding fire_due dispatch
  take_event at fuel now e =
      let l = loop_at at e in
      elim l.inbox [
        | [] ↦ e
        | ev ∷ rest ↦
            dispatch at now ev (fire_due at fuel now (put_loop at (record l { inbox = rest }) e))
      ]
