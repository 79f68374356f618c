-- ===== src/Engine/Homes.antt =====
-- Which shard the events of a host are in: the handlers of a loop (loop.go) and what they call (engine.go).
use riemann_go.Base.{
  ℕ, zero, suc, ◌≡◌, refl, sym, ◌∙◌, ap, subst, Option, none, some, some-eq, List, [], ◌∷◌,
  Bool-cases, Option-cases, ◌⊎◌, inl, inr, str_eq, length, get_elem?, get_or, set, length-set, All,
}
use riemann_go.Base.Float.{Float}
use riemann_go.Event.{Event}
use riemann_go.Index.{Index, Key}
use riemann_go.Index.Keys.{AllKeys, insert_event-AllKeys}
use riemann_go.Rule.{Emitted}
use riemann_go.Engine.State.{Loop, Engine, loop_at, put_loop, no_item}
use riemann_go.Engine.Routing.{shard_for}
use riemann_go.Engine.Loops.{index_event, emit_to, emit_all, drain_firings}

module _ {A : Type 0} where
  -- What a list holds after a write.
  get_elem?-set :
      (xs : List A) (i j : ℕ) (v w d : A)
      → get_elem? (set xs i v) j ≡ some w
      → ((i ≡ j) × (w ≡ v) × (get_elem? xs j ≡ some (get_or xs i d))) ⊎ (get_elem? xs j ≡ some w)
  get_elem?-set [] i j v w d h = inr h
  get_elem?-set (x ∷ xs) zero zero v w d h = inl (refl, some-eq w v (sym h), refl)
  get_elem?-set (x ∷ xs) zero (suc j) v w d h = inr h
  get_elem?-set (x ∷ xs) (suc i) zero v w d h = inr h
  get_elem?-set (x ∷ xs) (suc i) (suc j) v w d h = elim (get_elem?-set xs i j v w d h) [
    | inl (e, p, q) ↦ inl (ap suc e, p, q)
    | inr q ↦ inr q
  ]

module _ {F : Type 0} ⦃fl : Float F⦄ (n : ℕ) where
  -- The index has entries of hosts of shard i only.
  unfoldable pub IsIndexOf : ℕ → Option (Index F) → Type 0
  IsIndexOf i none = Unit
  IsIndexOf i (some x) = AllKeys (λ (k : Key). shard_for n k.host ≡ i) x.entries

module _ {F Pr : Type 0} ⦃fl : Float F⦄ (n : ℕ) where
  -- The events in the inbox and the entries of the index are of hosts of shard i.
  unfoldable pub IsHome : ℕ → Loop F Pr → Type 0
  unfolding IsIndexOf
  IsHome i l = IsIndexOf n i l.idx × All (λ ev. shard_for n ev.host ≡ i) l.inbox

  -- There are n shards, and each holds events of its own hosts only.
  unfoldable pub IsHomed : Engine F Pr → Type 0
  unfolding IsHome
  IsHomed e =
      (length e.shards ≡ n) × ((i : ℕ) (l : Loop F Pr) → get_elem? e.shards i ≡ some l → IsHome i l)

  pub put_loop-IsHomed :
      (at : Option ℕ) (l : Loop F Pr) (e : Engine F Pr)
      → IsHomed e
      → ((i : ℕ) → at ≡ some i → IsHome i (loop_at at e) → IsHome i l)
      → IsHomed (put_loop at l e)
  unfolding IsHomed
  put_loop-IsHomed none l e h k = h
  put_loop-IsHomed (some i) l e h k = (
    length-set e.shards i l ∙ h.0,
    λ j w q. elim (get_elem?-set e.shards i j l w e.global q) [
      | inl (same, is, there) ↦
          subst (IsHome j) (sym is) (k j (ap some same) (h.1 j (get_or e.shards i e.global) there))
      | inr there ↦ h.1 j w there
    ],
  )

  index_event-IsHomed :
      (ev : Event F) (e : Engine F Pr)
      → IsHomed e
      → IsHomed (index_event (shard_for (length e.shards) ev.host) ev e)
  unfolding index_event IsHome IsHomed IsIndexOf
  index_event-IsHomed ev e h =
      let at = shard_for (length e.shards) ev.host in
      elim (Option-cases (get_or e.shards at e.global).idx) [
        | inl o ↦ rw (o, index_event) h
        | inr (x, o) ↦
            rw (o, index_event)
              (put_loop-IsHomed (some at) _ e h (λ i q g. (
                insert_event-AllKeys (λ (k : Key). shard_for n k.host ≡ i) no_item ev x
                    (subst (λ m. shard_for m ev.host ≡ i) h.0 (some-eq at i q))
                    (subst (IsIndexOf n i) o g.0),
                g.1,
              )))
      ]

  pub emit_to-IsHomed : (f : Emitted F) (e : Engine F Pr) → IsHomed e → IsHomed (emit_to f e)
  unfolding emit_to IsHomed
  emit_to-IsHomed f e h = elim (Bool-cases (str_eq f.sink "index")) [
    | inl s ↦ rw s (index_event-IsHomed f.event e h)
    | inr s ↦ elim (Bool-cases (str_eq f.sink "influx")) [
      | inl t ↦ elim (Option-cases f.event.metric) [
        | inl o ↦ rw (s, t, o, emit_to) h
        | inr (m, o) ↦ rw (s, t, o, emit_to) h
      ]
      | inr t ↦ elim (Bool-cases (str_eq f.sink "ntfy")) [
        | inl u ↦ rw (s, t, u) h
        | inr u ↦ rw (s, t, u) h
      ]
    ]
  ]

  pub emit_all-IsHomed :
      (fs : List (Emitted F)) (e : Engine F Pr) → IsHomed e → IsHomed (emit_all fs e)
  unfolding emit_all
  emit_all-IsHomed [] e h = h
  emit_all-IsHomed (f ∷ fs) e h = emit_all-IsHomed fs (emit_to f e) (emit_to-IsHomed f e h)

  pub drain_firings-IsHomed :
      (at : Option ℕ) (e : Engine F Pr) → IsHomed e → IsHomed (drain_firings at e)
  unfolding drain_firings IsHome
  drain_firings-IsHomed at e h =
      emit_all-IsHomed (loop_at at e).rt.emitted _ (put_loop-IsHomed at _ e h (λ i q g. g))
