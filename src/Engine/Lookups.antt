-- ===== src/Engine/Lookups.antt =====
-- emit to the index sink, and IndexLookup (engine.go): both go by the host's shard.
use riemann_go.Base.{
  ◌<◌, ◌≡◌, refl, ap, sym, ◌∙◌, true, false, Option, none, some, String, str_eq, eq_iff, ◌==◌,
  ==_iff, if◌then◌else◌, if_true, arith, Bool-cases, inl, inr, length, get_or, set, get_or-set,
  length-set,
}
use riemann_go.Base.Float.{Float}
use riemann_go.Event.{Event, expired_state}
use riemann_go.Index.{Index, Key, key_eq, key_of, insert_event, lookup_event}
use riemann_go.Index.Table.{is_refused, lookup_event-insert_event}
use riemann_go.Rule.{Emitted}
use riemann_go.Engine.State.{Loop, Engine, no_item}
use riemann_go.Engine.Routing.{shard_for}
use riemann_go.Engine.Loops.{emit_to, index_event}
use riemann_go.Engine.Reads.{index_lookup}
use riemann_go.Engine.Admission.{shard_for-lt}

module _ {F Pr : Type 0} ⦃fl : Float F⦄ where
  -- The loop of a host's shard.
  abbrev pub home : String → Engine F Pr → Loop F Pr
  home host e = get_or e.shards (shard_for (length e.shards) host) e.global

  lookup_in : String → String → F → Loop F Pr → Option (Event F)
  lookup_in host service now l = elim l.idx [
    | none ↦ none
    | some x ↦ lookup_event host service now x
  ]

  abbrev stored : Event F → Index F → Loop F Pr → Loop F Pr
  stored ev x l = record l { idx = some (insert_event no_item ev x).1 }

  emit_to-set :
      (f : Emitted F) (x : Index F) (e : Engine F Pr)
      → f.sink ≡ "index"
      → (home f.event.host e).idx ≡ some x
      → let i = shard_for (length e.shards) f.event.host in
        emit_to f e
        ≡ record e { shards = set e.shards i (stored f.event x (get_or e.shards i e.global)) }
  unfolding emit_to index_event
  emit_to-set f x e s h =
      let sink : str_eq f.sink "index" ≡ true = (eq_iff f.sink "index").1 s in
      if_true _ _ sink ∙ rw (h, index_event)

  -- The loop that IndexLookup asks, once the shard of the event has the new index.
  lookup_in-set :
      (ev : Event F) (x : Index F) (host service : String) (now : F) (e : Engine F Pr)
      → 0 < length e.shards
      → let i = shard_for (length e.shards) ev.host in
        let j = shard_for (length e.shards) host in
        let l = get_or e.shards i e.global in
        index_lookup host service now (record e { shards = set e.shards i (stored ev x l) })
        ≡ lookup_in host service now (if i == j then stored ev x l else get_or e.shards j e.global)
  unfolding index_lookup lookup_in
  lookup_in-set ev x host service now e n =
      let i = shard_for (length e.shards) ev.host in
      let j = shard_for (length e.shards) host in
      let l = get_or e.shards i e.global in
      ap
        (λ k.
          lookup_in host service now
            (get_or (set e.shards i (stored ev x l)) (shard_for k host) e.global))
        (length-set e.shards i (stored ev x l))
      ∙ ap (lookup_in host service now)
          (get_or-set e.shards i j (stored ev x l) e.global (shard_for-lt _ ev.host n))

  -- What IndexLookup answers after an event reaches the index sink, in an engine with a shard and with
  -- an index at that of the event: the event, for its own identity,
  -- if it was stored; and what it answered before, for any other.
  pub index_lookup-emit_to :
      (f : Emitted F) (x : Index F) (host service : String) (now : F) (e : Engine F Pr)
      → 0 < length e.shards
      → f.sink ≡ "index"
      → (home f.event.host e).idx ≡ some x
      → index_lookup host service now (emit_to f e) ≡ (
          if key_eq (key_of f.event) (record { host = host; service = service })
          then (if str_eq f.event.state expired_state
              then none
              else if is_refused no_item f.event x
              then index_lookup host service now e
              else if fl.flt (fl.fadd f.event.time f.event.ttl) now
              then none
              else some f.event)
          else index_lookup host service now e)
  unfolding index_lookup lookup_in
  index_lookup-emit_to f x host service now e n s h =
      let i = shard_for (length e.shards) f.event.host in
      let j = shard_for (length e.shards) host in
      let key : Key = record { host = host; service = service } in
      ap (index_lookup host service now) (emit_to-set f x e s h)
      ∙ lookup_in-set f.event x host service now e n
      ∙ elim (Bool-cases (i == j)) [
        | inl q ↦
            let here : lookup_event host service now x ≡ index_lookup host service now e = sym (
              ap (lookup_in host service now)
                (ap (λ k. get_or e.shards k e.global) (sym ((==_iff i j).0 q)))
              ∙ rw (h, lookup_in)) in
            rw q (lookup_event-insert_event no_item f.event x host service now ∙ rw here)
        | inr q ↦
            let other : key_eq (key_of f.event) key ≡ false =
              elim (Bool-cases (str_eq f.event.host host)) [
                | inl same ↦
                    let ij = ap (shard_for (length e.shards)) ((eq_iff f.event.host host).0 same) in
                    absurd (ground (arith, q, (==_iff i j).1 ij))
                | inr differ ↦ rw differ
              ] in
            rw (q, other) refl
      ]
