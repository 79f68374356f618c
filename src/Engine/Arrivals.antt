-- ===== src/Engine/Arrivals.antt =====
-- PutRule, DeleteRule and Admit (engine.go) keep every host's events in its shard.
use riemann_go.Base.{
  ℕ, zero, suc, ◌+◌, ◌≡◌, refl, sym, ◌∙◌, ap, subst, Option, some, some-eq, List, [], ◌∷◌, ◌++◌,
  map, Bool-cases, Option-cases, inl, inr, arith, String, str_eq, ltb, length, get_elem?, get_or,
  set, All-append, add64,
}
use riemann_go.Base.Float.{Float}
use riemann_go.Base.Assoc.{string_eq, lookup}
use riemann_go.Event.{Event, Result, ok, err}
use riemann_go.Rule.{Compiled}
use riemann_go.Engine.State.{Loop, Engine}
use riemann_go.Engine.Routing.{shard_for}
use riemann_go.Engine.Loops.{try_send, install, uninstall, is_global, same}
use riemann_go.Engine.Store.{for_loops, is_same_hash, store_rule, put_rule, delete_rule, admit_from}
use riemann_go.Engine.Homes.{IsHome, IsHomed, put_loop-IsHomed}

module _ {A B : Type 0} where
  length-map : (f : A → B) (xs : List A) → length (map f xs) ≡ length xs
  length-map f [] = refl
  length-map f (x ∷ xs) = ap suc (length-map f xs)

  get_elem?-map :
      (f : A → B) (xs : List A) (i : ℕ) (b : B)
      → get_elem? (map f xs) i ≡ some b
      → (a : A) × (get_elem? xs i ≡ some a) × (b ≡ f a)
  get_elem?-map f [] i b h = absurd (ground (arith, h))
  get_elem?-map f (x ∷ xs) zero b h = (x, refl, some-eq b (f x) (sym h))
  get_elem?-map f (x ∷ xs) (suc i) b h = get_elem?-map f xs i b h

module _ {F Pr : Type 0} ⦃fl : Float F⦄ (n : ℕ) where
  for_loops-IsHomed :
      (change : Loop F Pr → Loop F Pr) (e : Engine F Pr)
      → ((i : ℕ) (l : Loop F Pr) → IsHome n i l → IsHome n i (change l))
      → IsHomed n e
      → IsHomed n (for_loops change e)
  unfolding for_loops IsHomed
  for_loops-IsHomed change e k h = (
    length-map change e.shards ∙ h.0,
    λ i l q.
        let (l₀, there, is) = get_elem?-map change e.shards i l q in
        subst (IsHome n i) (sym is) (k i l₀ (h.1 i l₀ there)),
  )

  install-IsHome :
      (c : Compiled F Pr) (i : ℕ) (l : Loop F Pr) → IsHome n i l → IsHome n i (install c l)
  unfolding install IsHome
  install-IsHome c i l h = elim (Bool-cases (same (str_eq c.partition "global") (is_global l))) [
    | inl s ↦ rw s h
    | inr s ↦ rw s h
  ]

  pub put_rule-IsHomed :
      (E : Type 0) (parsed : Result E (Compiled F Pr)) (e : Engine F Pr)
      → IsHomed n e
      → IsHomed n (put_rule parsed e).1
  unfolding put_rule store_rule IsHomed for_loops
  put_rule-IsHomed E (err x) e h = h
  put_rule-IsHomed E (ok c) e h = elim (Bool-cases (is_same_hash c (lookup c.id e.rules))) [
    | inl s ↦ rw s h
    | inr s ↦ rw s (for_loops-IsHomed (install (store_rule c e).0) e (install-IsHome _) h)
  ]

  pub delete_rule-IsHomed :
      (id : String) (e : Engine F Pr) → IsHomed n e → IsHomed n (delete_rule id e).1
  unfolding delete_rule IsHomed for_loops uninstall IsHome
  delete_rule-IsHomed id e h = elim (Option-cases (lookup id e.rules)) [
    | inl o ↦ rw (o, delete_rule) h
    | inr (c, o) ↦ rw (o, delete_rule) (for_loops-IsHomed (uninstall id) e (λ i l g. g) h)
  ]

  pub set-IsHomed :
      (j : ℕ) (l : Loop F Pr) (e : Engine F Pr)
      → IsHomed n e
      → (IsHome n j (get_or e.shards j e.global) → IsHome n j l)
      → IsHomed n (record e { shards = set e.shards j l })
  set-IsHomed j l e h k =
      put_loop-IsHomed n (some j) l e h (λ i q.
        subst (λ i. IsHome n i (get_or e.shards j e.global) → IsHome n i l) (some-eq j i q) k)

  received-IsHome :
      (ev : Event F) (i : ℕ) (l : Loop F Pr)
      → shard_for n ev.host ≡ i
      → IsHome n i l
      → IsHome n i (record l { inbox = l.inbox ++ ev ∷ [] })
  unfolding IsHome
  received-IsHome ev i l s h =
      (h.0, All-append (λ ev. shard_for n ev.host ≡ i) l.inbox (ev ∷ []) h.1 (s, tt))

  pub try_send-IsHome :
      (ev : Event F) (i : ℕ) (l l' : Loop F Pr)
      → try_send ev l ≡ some l'
      → shard_for n ev.host ≡ i
      → IsHome n i l
      → IsHome n i l'
  unfolding try_send
  try_send-IsHome ev i l l' q s h = elim (Bool-cases (ltb (length l.inbox) l.inbox_capacity)) [
    | inl c ↦ subst (IsHome n i) (some-eq _ l' (rw c at q)) (received-IsHome ev i l s h)
    | inr c ↦ absurd (ground (arith, q, c))
  ]

  -- Admit, if what happens while it waits keeps every host's events in its shard.
  pub admit_from-IsHomed :
      (wait : ℕ → Engine F Pr → Option (Engine F Pr))
      → ((i : ℕ) (e e' : Engine F Pr) → wait i e ≡ some e' → IsHomed n e → IsHomed n e')
      → (evs : List (Event F)) (k : ℕ) (e : Engine F Pr) → IsHomed n e
      → IsHomed n (admit_from wait evs k e).1
  unfolding admit_from IsHomed IsHome
  admit_from-IsHomed wait w [] k e h = h
  admit_from-IsHomed wait w (ev ∷ evs) k e h =
      let i = shard_for (length e.shards) ev.host in
      let l = get_or e.shards i e.global in
      let s : shard_for n ev.host ≡ i = ap (λ m. shard_for m ev.host) (sym h.0) in
      let e₁ : Engine F Pr = record e {
        shards = set e.shards i (record l { stalled = add64 l.stalled 1 });
      } in
      let h₁ : IsHomed n e₁ =
        set-IsHomed i (record l { stalled = add64 l.stalled 1 }) e h (λ g. g) in
      elim (Option-cases (try_send ev l)) [
        | inr (l', o) ↦
            rw (o, admit_from)
              (admit_from-IsHomed wait w evs (k + 1) _
                (set-IsHomed i l' e h (try_send-IsHome ev i l l' o s)))
        | inl o ↦ elim (Option-cases (wait i e₁)) [
          | inr (e', p) ↦
              rw (o, admit_from, p)
                (admit_from-IsHomed wait w evs (k + 1) _ (
                  set-IsHomed i _ e' (w i e₁ e' p h₁)
                    (received-IsHome ev i (get_or e'.shards i e'.global) s)))
          | inl p ↦ rw (o, admit_from, p) (set-IsHomed i _ e₁ h₁ (λ g. g))
        ]
      ]
