-- ===== src/Engine/Accounting.antt =====
-- Stats (stats.go): the accounting residual that GET /metrics and self-observation report.
use riemann_go.Base.{
  ℕ, ◌≡◌, refl, sym, subst, set, get_or, if_true, if_false, Bool, Option, none, some, str_eq,
  Bool-cases, inl, inr,
}
use riemann_go.Base.Float.{Float}
use riemann_go.Params.{Params}
use riemann_go.Event.{Event}
use riemann_go.Index
use riemann_go.Index.{Index}
use riemann_go.Rule.{Emitted}
use riemann_go.SinkQueue.{SinkQueue, offer, reject, take_batch, settle, close}
use riemann_go.SinkQueue.Accounting.{
  IsBalanced, new-IsBalanced, offer-IsBalanced, reject-IsBalanced, take_batch-IsBalanced,
  settle-IsBalanced, close-IsBalanced,
}
use riemann_go.Engine.State.{Engine, Loop, no_item, new_engine}
use riemann_go.Engine.Loops.{emit_to, index_event}
use riemann_go.Engine.Stats.{Gauges, engine_stats}

module _ {F : Type 0} where
  -- A critical section of a worker on its queue
  pub data Works : SinkQueue (Emitted F) → SinkQueue (Emitted F) → Type 0 where
    takes :
        {q t : SinkQueue (Emitted F)} (max_batch : ℕ) → t ≡ (take_batch max_batch q).1 → Works q t
    settles :
        {q t : SinkQueue (Emitted F)} (k : ℕ) (delivered : Bool)
        → t ≡ settle k delivered q
        → Works q t
    closes : {q t : SinkQueue (Emitted F)} → t ≡ close q → Works q t

  Works-IsBalanced : {q t : SinkQueue (Emitted F)} → Works q t → IsBalanced q → IsBalanced t
  Works-IsBalanced (takes {q} max_batch e) h = rw e (take_batch-IsBalanced max_batch q h)
  Works-IsBalanced (settles {q} k delivered e) h = rw e (settle-IsBalanced k delivered q h)
  Works-IsBalanced (closes {q} e) h = rw e (close-IsBalanced q h)

module _ {F Pr : Type 0} ⦃fl : Float F⦄ where
  -- A firing that a loop emits, a step of a worker, or anything that leaves the sinks alone.
  pub data Step : Engine F Pr → Engine F Pr → Type 0 where
    emits : {e t : Engine F Pr} (f : Emitted F) → t ≡ emit_to f e → Step e t
    ntfy_works :
        {e t : Engine F Pr}
        → Works e.sink_ntfy t.sink_ntfy
        → t.sink_influx ≡ e.sink_influx
        → Step e t
    influx_works :
        {e t : Engine F Pr}
        → Works e.sink_influx t.sink_influx
        → t.sink_ntfy ≡ e.sink_ntfy
        → Step e t
    others :
        {e t : Engine F Pr} → t.sink_ntfy ≡ e.sink_ntfy → t.sink_influx ≡ e.sink_influx → Step e t

  pub data Reach (e : Engine F Pr) : Engine F Pr → Type 0 where
    here : Reach e e
    next : {t u : Engine F Pr} → Reach e t → Step t u → Reach e u

  abbrev IsAccounted : Engine F Pr → Type 0
  IsAccounted e = IsBalanced e.sink_ntfy × IsBalanced e.sink_influx

  idx-IsAccounted :
      (i : ℕ) (ev : Event F) (o : Option (Index F)) (l : Loop F Pr) (e : Engine F Pr)
      → IsAccounted e
      → IsAccounted (elim o [
        | none ↦ e
        | some x ↦ record e {
          shards = set e.shards i (record l { idx = some (Index.insert_event no_item ev x).1 });
        }
      ])
  idx-IsAccounted i ev none l e h = h
  idx-IsAccounted i ev (some x) l e h = h

  index_event-IsAccounted :
      (i : ℕ) (ev : Event F) (e : Engine F Pr) → IsAccounted e → IsAccounted (index_event i ev e)
  unfolding index_event
  index_event-IsAccounted i ev e h =
      let l = get_or e.shards i e.global in idx-IsAccounted i ev l.idx l e h

  influx-IsAccounted :
      (f : Emitted F) (metric : Option F) (e : Engine F Pr)
      → IsAccounted e
      → IsAccounted (elim metric [
        | none ↦ record e { sink_influx = reject e.sink_influx }
        | some m ↦ record e { sink_influx = offer f e.sink_influx }
      ])
  influx-IsAccounted f none e h = (h.0, reject-IsBalanced e.sink_influx h.1)
  influx-IsAccounted f (some m) e h = (h.0, offer-IsBalanced f e.sink_influx h.1)

  emit_to-IsAccounted :
      (f : Emitted F) (e : Engine F Pr) → IsAccounted e → IsAccounted (emit_to f e)
  unfolding emit_to
  emit_to-IsAccounted f e h = elim (Bool-cases (str_eq f.sink "index")) [
    | inl a ↦ subst IsAccounted (sym (if_true _ _ a)) (index_event-IsAccounted _ f.event e h)
    | inr a ↦ subst IsAccounted (sym (if_false _ _ a)) (elim (Bool-cases (str_eq f.sink "influx")) [
      | inl b ↦ subst IsAccounted (sym (if_true _ _ b)) (influx-IsAccounted f f.event.metric e h)
      | inr b ↦ subst IsAccounted (sym (if_false _ _ b)) (elim (Bool-cases (str_eq f.sink "ntfy")) [
        | inl c ↦ subst IsAccounted (sym (if_true _ _ c)) (offer-IsBalanced f e.sink_ntfy h.0, h.1)
        | inr c ↦ subst IsAccounted (sym (if_false _ _ c)) h
      ])
    ])
  ]

  Step-IsAccounted : {e t : Engine F Pr} → Step e t → IsAccounted e → IsAccounted t
  Step-IsAccounted (emits {e} f p) h = rw p (emit_to-IsAccounted f e h)
  Step-IsAccounted (ntfy_works w p) h = (Works-IsBalanced w h.0, rw p h.1)
  Step-IsAccounted (influx_works w p) h = (rw p h.0, Works-IsBalanced w h.1)
  Step-IsAccounted (others p q) h = (rw p h.0, rw q h.1)

  Reach-IsAccounted : (p : Params) {e : Engine F Pr} → Reach (new_engine p) e → IsAccounted e
  unfolding new_engine
  Reach-IsAccounted p here = (
    new-IsBalanced (Emitted F) "ntfy" p.sink_ntfy_queue_capacity,
    new-IsBalanced (Emitted F) "influx" p.sink_influx_queue_capacity,
  )
  Reach-IsAccounted p (next r s) = Step-IsAccounted s (Reach-IsAccounted p r)

  -- In every interleaving of firings that the loops emit with the steps of the two workers, whatever else
  -- happens to the engine in between, the residual that Stats reports is 0.
  pub Reach-residual :
      (p : Params) {e : Engine F Pr} (g : Gauges F)
      → Reach (new_engine p) e
      → (engine_stats g e).residual ≡ 0
  unfolding engine_stats
  Reach-residual p {e} g r = let h = Reach-IsAccounted p r in rw (h.0, h.1) refl
