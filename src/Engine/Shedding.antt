-- ===== src/Engine/Shedding.antt =====
-- publish (subs.go): what a subscriber that reads nothing gets of a run of events.
use riemann_go.Base.{
  ℕ, ◌+◌, ◌≤◌, ◌<◌, ◌≡◌, refl, ap, sym, ◌∙◌, Option, none, some, List, [], ◌∷◌, ◌++◌, ltb, arith,
  if◌then◌else◌, Bool-cases, inl, inr, length, take, take_of_le, take-append_full, ltb→lt,
  length-append, append_assoc, append-nil, add64, word,
}
use riemann_go.Base.Float.{Float}
use riemann_go.Base.Assoc.{Assoc, lookup}
use riemann_go.Event.{Event}
use riemann_go.Rule.{Vm}
use riemann_go.Engine.State.{Subscriber, Subscribers}
use riemann_go.Engine.Subs.{holds, offer_to, publish, publish_all, number_instance}

module _ {F Pr : Type 0} ⦃fl : Float F⦄ ⦃vm : Vm F Pr⦄ where
  abbrev pub offered : ℕ → Event F → F → Option (Subscriber F Pr) → Option (Subscriber F Pr)
  offered capacity ev now none = none
  offered capacity ev now (some s) = some (offer_to capacity ev now s).0

  lookup-publish_all :
      (k capacity : ℕ) (ev : Event F) (now : F) (m : Assoc ℕ (Subscriber F Pr)) (n : ℕ)
      → lookup k (publish_all capacity ev now m n).0 ≡ offered capacity ev now (lookup k m)
  unfolding publish_all lookup
  lookup-publish_all k capacity ev now [] n = refl
  lookup-publish_all k capacity ev now ((j, s) ∷ m) n =
      ground
        (arith, lookup-publish_all k capacity ev now m (add64 n (offer_to capacity ev now s).1))

  -- A run of calls of publish, each with the reading of the clock that dispatch gives it.
  unfoldable pub publish_run : List (Event F × F) → Subscribers F Pr → Subscribers F Pr
  publish_run [] s = s
  publish_run ((ev, now) ∷ runs) s = publish_run runs (publish ev now s)

  -- The events of which a query holds, each at its own reading of the clock.
  unfoldable pub matching : Option Pr → List (Event F × F) → List (Event F)
  matching q [] = []
  matching q ((ev, now) ∷ runs) =
      let rest = matching q runs in if holds q ev now then ev ∷ rest else rest

  unfoldable pub offer_run : ℕ → List (Event F × F) → Subscriber F Pr → Subscriber F Pr
  offer_run capacity [] s = s
  offer_run capacity ((ev, now) ∷ runs) s = offer_run capacity runs (offer_to capacity ev now s).0

  -- Publishing offers each event to each subscriber apart from the others.
  lookup-publish_run :
      (k : ℕ) (runs : List (Event F × F)) (s : Subscribers F Pr) (sub : Subscriber F Pr)
      → lookup k s.set ≡ some sub
      → lookup k (publish_run runs s).set ≡ some (offer_run s.capacity runs sub)
  unfolding publish_run offer_run publish
  lookup-publish_run k [] s sub h = h
  lookup-publish_run k ((ev, now) ∷ runs) s sub h =
      lookup-publish_run k runs (publish ev now s) (offer_to s.capacity ev now sub).0
        (lookup-publish_all k s.capacity ev now s.set s.dropped ∙ ap (offered s.capacity ev now) h)

  -- What the queue holds and what it shed, of the events of which the query holds.
  pub record IsShed (capacity : ℕ) (runs : List (Event F × F)) (s s' : Subscriber F Pr)
      : Type 0 where
    pub kept : s'.c ≡ take capacity (s.c ++ matching s.prog runs)
    pub counted : length s'.c + s'.dropped ≡ length s.c + s.dropped + length (matching s.prog runs)

  offer_run-IsShed :
      (capacity : ℕ) (runs : List (Event F × F)) (s : Subscriber F Pr)
      → length s.c ≤ capacity
      → s.dropped + length runs < word
      → IsShed capacity runs s (offer_run capacity runs s)
  unfolding offer_run matching offer_to
  offer_run-IsShed capacity [] s h w = record {
    kept = sym (ap (take capacity) (append-nil s.c) ∙ take_of_le capacity s.c h);
    counted = omega arith;
  }
  offer_run-IsShed capacity ((ev, now) ∷ runs) s h w = elim (Bool-cases (holds s.prog ev now)) [
    | inr q ↦
        let r = offer_run-IsShed capacity runs s h (omega arith) in
        rw (q, offer_to)
          record { kept = rw (q, matching) r.kept; counted = rw (q, matching) r.counted }
    | inl q ↦ elim (Bool-cases (ltb (length s.c) capacity)) [
      | inl room ↦
          let fits = ltb→lt _ _ room in
          let s₁ = record s { c = s.c ++ ev ∷ [] } in
          let longer = length-append s.c (ev ∷ []) in
          let r = offer_run-IsShed capacity runs s₁ (omega (arith, longer)) (omega arith) in
          rw (q, room, offer_to)
            record {
              kept =
                  rw (q, matching)
                    (r.kept
                      ∙ ap (take capacity) (append_assoc s.c (ev ∷ []) (matching s.prog runs)));
              counted = rw (q, matching) (omega (arith, r.counted, longer));
            }
      | inr full ↦
          let is_full : length s.c ≡ capacity = ground (arith, full, h) in
          let s₁ = record s { dropped = add64 s.dropped 1 } in
          let one : add64 s.dropped 1 ≡ s.dropped + 1 = omega arith in
          let r = offer_run-IsShed capacity runs s₁ h (omega (arith, one)) in
          rw (q, full, offer_to)
            record {
              kept =
                  r.kept
                  ∙ take-append_full capacity s.c (matching s.prog runs) is_full
                  ∙ sym
                      (take-append_full capacity s.c (matching s.prog ((ev, now) ∷ runs)) is_full);
              counted = rw (q, matching) (omega (arith, r.counted, one));
            }
    ]
  ]

  -- Of a run of published events, each with its own reading of the clock, a subscriber that reads nothing
  -- keeps the first ones of which its query holds then, up to the capacity of its queue, and every later
  -- one is counted as dropped, where its count does not wrap.
  pub publish_run-IsShed :
      (k : ℕ) (runs : List (Event F × F)) (s : Subscribers F Pr) (sub : Subscriber F Pr)
      → lookup k s.set ≡ some sub
      → length sub.c ≤ s.capacity
      → sub.dropped + length runs < word
      → (sub' : Subscriber F Pr) × (lookup k (publish_run runs s).set ≡ some sub')
        × IsShed s.capacity runs sub sub'
  publish_run-IsShed k runs s sub h fits w = (
    offer_run s.capacity runs sub,
    lookup-publish_run k runs s sub h,
    offer_run-IsShed s.capacity runs sub fits w,
  )
