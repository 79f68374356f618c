-- ===== src/Engine/Life.antt =====
-- A whole engine (engine.go, loop.go): whatever it does, IndexLookup finds what the shards hold.
use riemann_go.Base.{
  ℕ, zero, suc, ◌≡◌, refl, sym, ◌∙◌, ap, subst, Option, none, some, some-eq, List, [], ◌∷◌, arith,
  String, length, get_elem?, get_or, set, if◌then◌else◌,
}
use riemann_go.Base.Float.{Float}
use riemann_go.Base.Assoc.{string_eq, lookup}
use riemann_go.Params.{Params}
use riemann_go.Event.{Event, Result}
use riemann_go.Index.{Index, Key, Entry, key_instance, new_index}
use riemann_go.Index.Keys.{AllKeys, lookup_event-of}
use riemann_go.Rule.{Vm, Compiled}
use riemann_go.Rule.Compile.{ParseError}
use riemann_go.Engine.State.{Loop, Engine, new_engine, new_shards, new_shard}
use riemann_go.Engine.Routing.{shard_for}
use riemann_go.Engine.Loops.{try_send, fire_due, take_event}
use riemann_go.Engine.Store.{put_rule, delete_rule, admit}
use riemann_go.Engine.Reads.{index_lookup}
use riemann_go.Engine.Homes.{IsIndexOf, IsHome, IsHomed}
use riemann_go.Engine.Homing.{take_event-IsHomed, fire_due-IsHomed}
use riemann_go.Engine.Arrivals.{
  put_rule-IsHomed, delete_rule-IsHomed, set-IsHomed, try_send-IsHome, admit_from-IsHomed,
}

get_or-of :
    {A : Type 0} (xs : List A) (i : ℕ) (a d : A) → get_elem? xs i ≡ some a → get_or xs i d ≡ a
get_or-of [] i a d h = absurd (ground (arith, h))
get_or-of (x ∷ xs) zero a d h = some-eq x a h
get_or-of (x ∷ xs) (suc i) a d h = get_or-of xs i a d h

module _ {F Pr : Type 0} ⦃fl : Float F⦄ (n : ℕ) where
  new_shards-IsHome :
      (p : Params) (i k j m : ℕ) (l : Loop F Pr)
      → get_elem? (new_shards p i k) j ≡ some l
      → IsHome n m l
  unfolding new_shards new_shard IsHome IsIndexOf AllKeys new_index lookup
  new_shards-IsHome p i zero j m l q = absurd (ground (arith, q))
  new_shards-IsHome p i (suc k) zero m l q =
      subst (IsHome n m) (some-eq (new_shard p i) l q) ((λ k e r. absurd (ground (arith, r))), tt)
  new_shards-IsHome p i (suc k) (suc j) m l q = new_shards-IsHome p (suc i) k j m l q

module _ (F Pr : Type 0) ⦃fl : Float F⦄ where
  length-new_shards : (p : Params) (i k : ℕ) → length (new_shards {F = F} {Pr = Pr} p i k) ≡ k
  unfolding new_shards
  length-new_shards p i zero = refl
  length-new_shards p i (suc k) = ap suc (length-new_shards p (suc i) k)

module _ {F Pr : Type 0} ⦃fl : Float F⦄ ⦃vm : Vm F Pr⦄ where
  -- A loop takes an event or fires what is due, a rule is put or deleted, a request sends one of its
  -- events to a shard, or something happens that leaves the shards alone.
  pub data Step : Engine F Pr → Engine F Pr → Type 0 where
    takes :
        {e t : Engine F Pr} (at : Option ℕ) (fuel : ℕ) (now : F)
        → t ≡ take_event at fuel now e
        → Step e t
    fires :
        {e t : Engine F Pr} (at : Option ℕ) (fuel : ℕ) (now : F)
        → t ≡ fire_due at fuel now e
        → Step e t
    puts :
        {e t : Engine F Pr} (parsed : Result ParseError (Compiled F Pr))
        → t ≡ (put_rule parsed e).1
        → Step e t
    deletes : {e t : Engine F Pr} (id : String) → t ≡ (delete_rule id e).1 → Step e t
    sends :
        {e t : Engine F Pr} (ev : Event F) (l : Loop F Pr)
        → try_send ev (get_or e.shards (shard_for (length e.shards) ev.host) e.global) ≡ some l
        → t ≡ record e { shards = set e.shards (shard_for (length e.shards) ev.host) l }
        → Step e t
    others : {e t : Engine F Pr} → t.shards ≡ e.shards → Step e t

  pub data Runs (e : Engine F Pr) : Engine F Pr → Type 0 where
    here : Runs e e
    next : {t u : Engine F Pr} → Runs e t → Step t u → Runs e u

  -- An engine since New, with requests that Admit takes whole; while it waits, any steps are made.
  pub data Life (p : Params) : Engine F Pr → Type 0 where
    starts : Life p (new_engine p)
    steps : {e t : Engine F Pr} → Life p e → Step e t → Life p t
    admits :
        {e t : Engine F Pr} (wait : ℕ → Engine F Pr → Option (Engine F Pr)) (evs : List (Event F))
        → Life p e
        → ((i : ℕ) (u v : Engine F Pr) → wait i u ≡ some v → Runs u v)
        → t ≡ (admit wait evs e).1
        → Life p t

  Step-IsHomed : (n : ℕ) {e t : Engine F Pr} → Step e t → IsHomed n e → IsHomed n t
  unfolding IsHomed
  Step-IsHomed n (takes {e} at fuel now q) h = rw q (take_event-IsHomed n at fuel now e h)
  Step-IsHomed n (fires {e} at fuel now q) h = rw q (fire_due-IsHomed n at fuel now e h)
  Step-IsHomed n (puts {e} parsed q) h = rw q (put_rule-IsHomed n ParseError parsed e h)
  Step-IsHomed n (deletes {e} id q) h = rw q (delete_rule-IsHomed n id e h)
  Step-IsHomed n (sends {e} ev l s q) h = rw q (
      set-IsHomed n (shard_for (length e.shards) ev.host) l e h (
        try_send-IsHome n ev (shard_for (length e.shards) ev.host) _ l s
          (ap (λ m. shard_for m ev.host) (sym h.0))))
  Step-IsHomed n (others q) h = rw q h

  Runs-IsHomed : (n : ℕ) {e t : Engine F Pr} → Runs e t → IsHomed n e → IsHomed n t
  Runs-IsHomed n here h = h
  Runs-IsHomed n (next r s) h = Step-IsHomed n s (Runs-IsHomed n r h)

  Life-IsHomed : (p : Params) {e : Engine F Pr} → Life p e → IsHomed p.shards e
  unfolding new_engine IsHomed admit
  Life-IsHomed p starts = (
    length-new_shards F Pr p 0 p.shards,
    λ i l q. new_shards-IsHome p.shards p 0 p.shards i i l q,
  )
  Life-IsHomed p (steps r s) = Step-IsHomed p.shards s (Life-IsHomed p r)
  Life-IsHomed p (admits {e} wait evs r w q) = rw q (
      admit_from-IsHomed p.shards wait (λ i u v o. Runs-IsHomed p.shards (w i u v o)) evs 0 e
        (Life-IsHomed p r))

  -- In every engine that New and any sequence of steps of its loops, of PutRule, DeleteRule and Admit has
  -- made, an entry that the index of any shard has is the one that IndexLookup answers for its host and
  -- service, unless its deadline has passed. Rules may have set the host of the event before it reached
  -- the index, and Admit may wait while others make steps.
  pub Life-index_lookup :
      (p : Params) {e : Engine F Pr} (i : ℕ) (l : Loop F Pr) (x : Index F) (k : Key)
      (entry : Entry F) (now : F)
      → Life p e
      → get_elem? e.shards i ≡ some l
      → l.idx ≡ some x
      → lookup k x.entries ≡ some entry
      → index_lookup k.host k.service now e
        ≡ (if fl.flt entry.deadline now then none else some entry.ev)
  unfolding index_lookup IsHomed IsHome IsIndexOf AllKeys
  Life-index_lookup p {e} i l x k entry now r there has is =
      let h = Life-IsHomed p r in
      let own : IsIndexOf p.shards i (some x) =
        subst (IsIndexOf p.shards i) has (h.1 i l there).0 in
      let at : shard_for (length e.shards) k.host ≡ i =
        ap (λ m. shard_for m k.host) h.0 ∙ own k entry is in
      rw (at, get_or-of e.shards i l e.global there, has, index_lookup)
        (lookup_event-of k.host k.service now x entry is)
