-- ===== src/Engine/Versions.antt =====
-- PutRule and DeleteRule (engine.go): the versions of a rule.
use riemann_go.Base.{
  ℕ, ◌+◌, ◌≤◌, ◌<◌, ◌≡◌, refl, Bool, ap, sym, ◌∙◌, subst, true, false, none, some, String, str_eq,
  eq_refl, if_true, if_false, arith, Bool-cases, Option-cases, some-eq, inl, inr, half_word,
}
use riemann_go.Base.Float.{Float}
use riemann_go.Base.Assoc.{string_eq, Assoc, lookup, insert, erase, lookup-insert, lookup-erase}
use riemann_go.Event.{Result, ok, err, default_to}
use riemann_go.Rule.{Compiled}
use riemann_go.Engine.State.{Engine}
use riemann_go.Engine.Store.{for_loops, store_rule, put_rule, delete_rule, is_same_hash}

module _ {F Pr : Type 0} ⦃fl : Float F⦄ where
  -- The last version ever issued for an id, 0 where there is none.
  abbrev pub last_of : String → Engine F Pr → ℕ
  last_of id e = default_to 0 (lookup id e.last_version)

  -- No stored rule is newer than the last version issued for its id.
  unfoldable pub IsVersionedBy : Assoc String (Compiled F Pr) → Assoc String ℕ → Type 0
  IsVersionedBy rules last =
      (id : String) (c : Compiled F Pr)
      → lookup id rules ≡ some c
      → c.version ≤ default_to 0 (lookup id last)

  abbrev pub IsVersioned : Engine F Pr → Type 0
  IsVersioned e = IsVersionedBy e.rules e.last_version

  insert-IsVersionedBy :
      (rules : Assoc String (Compiled F Pr)) (last : Assoc String ℕ) (k : String)
      (c : Compiled F Pr)
      → IsVersionedBy rules last
      → IsVersionedBy (insert k c rules) (insert k c.version last)
  unfolding IsVersionedBy
  insert-IsVersionedBy rules last k c v id d q = elim (Bool-cases (str_eq k id)) [
    | inl e ↦
        let same : some c ≡ some d = sym (lookup-insert k id c rules ∙ if_true _ _ e) ∙ q in
        omega (
          arith,
          ap (λ (x : Compiled F Pr). x.version) (some-eq _ _ same),
          ap (default_to 0) (lookup-insert k id c.version last ∙ if_true _ _ e),
        )
    | inr e ↦
        let old : lookup id rules ≡ some d =
          sym (lookup-insert k id c rules ∙ if_false _ _ e) ∙ q in
        omega (
          arith,
          v id d old,
          ap (default_to 0) (lookup-insert k id c.version last ∙ if_false _ _ e),
        )
  ]

  erase-IsVersionedBy :
      (rules : Assoc String (Compiled F Pr)) (last : Assoc String ℕ) (k : String)
      → IsVersionedBy rules last
      → IsVersionedBy (erase k rules) last
  unfolding IsVersionedBy
  erase-IsVersionedBy rules last k v id d q = elim (Bool-cases (str_eq k id)) [
    | inl e ↦
        let gone : none ≡ some d = sym (lookup-erase k id rules ∙ if_true _ _ e) ∙ q in
        absurd (ground (arith, gone))
    | inr e ↦ v id d (sym (lookup-erase k id rules ∙ if_false _ _ e) ∙ q)
  ]

  -- PutRule keeps every stored rule at or below the last version issued for its id.
  pub put_rule-IsVersioned :
      {E : Type 0} (parsed : Result E (Compiled F Pr)) (e : Engine F Pr)
      → IsVersioned e
      → IsVersioned (put_rule parsed e).1
  unfolding put_rule store_rule for_loops
  put_rule-IsVersioned (err x) e v = v
  put_rule-IsVersioned (ok c) e v = elim (Bool-cases (is_same_hash c (lookup c.id e.rules))) [
    | inl s ↦ rw s v
    | inr s ↦ rw s (insert-IsVersionedBy e.rules e.last_version c.id (store_rule c e).0 v)
  ]

  pub delete_rule-IsVersioned :
      (id : String) (e : Engine F Pr) → IsVersioned e → IsVersioned (delete_rule id e).1
  unfolding delete_rule for_loops
  delete_rule-IsVersioned id e v = elim (Option-cases (lookup id e.rules)) [
    | inl n ↦ rw (n, delete_rule) v
    | inr (c, s) ↦ rw (s, delete_rule) (erase-IsVersionedBy e.rules e.last_version id v)
  ]

  -- A rule whose hash differs from that of the rule stored under its id is stored with a higher
  -- version, where no stored version is above the last one issued and the new one is below 2^63, from
  -- which on the bits of an int64 are those of a negative number.
  pub put_rule-raises :
      (E : Type 0) (c old : Compiled F Pr) (e : Engine F Pr)
      → IsVersioned e
      → lookup c.id e.rules ≡ some old
      → str_eq old.hash c.hash ≡ false
      → last_of c.id e + 1 < half_word
      → (c' : Compiled F Pr) × (lookup c.id (put_rule {E = E} (ok c) e).1.rules ≡ some c')
        × (old.version < c'.version)
  unfolding put_rule store_rule for_loops is_same_hash IsVersionedBy
  put_rule-raises E c old e v o s h =
      rw (o, s)
        (
          (store_rule c e).0,
          lookup-insert c.id c.id _ e.rules ∙ if_true _ _ (eq_refl c.id),
          omega (arith, v c.id old o),
        )

  put_rule-same :
      (E : Type 0) (c : Compiled F Pr) (e : Engine F Pr)
      → is_same_hash c (lookup c.id e.rules) ≡ true
      → (put_rule {E = E} (ok c) e).1 ≡ e
  unfolding put_rule
  put_rule-same E c e s = rw s

  put_rule-new :
      (E : Type 0) (c : Compiled F Pr) (e : Engine F Pr)
      → is_same_hash c (lookup c.id e.rules) ≡ false
      → (put_rule {E = E} (ok c) e).1 ≡ (store_rule c e).1
  unfolding put_rule
  put_rule-new E c e s = rw s

  is_same_hash-store_rule :
      (c : Compiled F Pr) (e : Engine F Pr)
      → is_same_hash c (lookup c.id (store_rule c e).1.rules) ≡ true
  unfolding store_rule is_same_hash for_loops
  is_same_hash-store_rule c e =
      ap (is_same_hash c) (lookup-insert c.id c.id _ e.rules ∙ if_true _ _ (eq_refl c.id))
      ∙ eq_refl c.hash

  -- Putting the same rule a second time changes nothing.
  pub put_rule-again :
      (E : Type 0) (c : Compiled F Pr) (e : Engine F Pr)
      → (put_rule {E = E} (ok c) (put_rule {E = E} (ok c) e).1).1 ≡ (put_rule {E = E} (ok c) e).1
  put_rule-again E c e = elim (Bool-cases (is_same_hash c (lookup c.id e.rules))) [
    | inl s ↦ ap (λ x. (put_rule {E = E} (ok c) x).1) (put_rule-same E c e s)
    | inr s ↦
        subst (λ x. (put_rule {E = E} (ok c) x).1 ≡ x) (sym (put_rule-new E c e s))
          (put_rule-same E c (store_rule c e).1 (is_same_hash-store_rule c e))
  ]

  put_rule-kept :
      (E : Type 0) (c x : Compiled F Pr) (e : Engine F Pr)
      → lookup c.id e.rules ≡ some x
      → str_eq x.hash c.hash ≡ true
      → put_rule {E = E} (ok c) e ≡ (ok (x, false), e)
  unfolding put_rule is_same_hash
  put_rule-kept E c x e o s = rw (o, s) refl

  put_rule-created :
      (E : Type 0) (c : Compiled F Pr) (e : Engine F Pr)
      → is_same_hash c (lookup c.id e.rules) ≡ false
      → put_rule {E = E} (ok c) e ≡ (ok ((store_rule c e).0, true), (store_rule c e).1)
  unfolding put_rule
  put_rule-created E c e s = rw s refl

  -- The answers of a PutRule and of the next one of the same rule.
  pub put_rule-twice :
      (E : Type 0) (c : Compiled F Pr) (e : Engine F Pr)
      → (created : Bool) × (c' : Compiled F Pr) × (e' : Engine F Pr) × (put_rule {E = E} (ok c) e
          ≡ (ok (c', created), e'))
        × (put_rule {E = E} (ok c) e' ≡ (ok (c', false), e'))
        × (e'.p ≡ e.p)
  unfolding store_rule for_loops is_same_hash
  put_rule-twice E c e = elim (Bool-cases (is_same_hash c (lookup c.id e.rules))) [
    | inr s ↦ (
      true,
      (store_rule c e).0,
      (store_rule c e).1,
      put_rule-created E c e s,
      put_rule-kept E c (store_rule c e).0 (store_rule c e).1
          (lookup-insert c.id c.id _ e.rules ∙ if_true _ _ (eq_refl c.id)) (eq_refl c.hash),
      refl,
    )
    | inl s ↦ elim (Option-cases (lookup c.id e.rules)) [
      | inl n ↦ absurd (ground (arith, n, s))
      | inr (x, o) ↦
          let same = rw o at s in
          (false, x, e, put_rule-kept E c x e o same, put_rule-kept E c x e o same, refl)
    ]
  ]
