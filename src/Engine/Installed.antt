-- ===== src/Engine/Installed.antt =====
-- Which instance of a rule a loop runs, after control (loop.go), PutRule and DeleteRule (engine.go).
use riemann_go.Base.{
  ◌≡◌, refl, ap, ◌∙◌, subst, Bool, Option, none, some, List, [], ◌∷◌, String, str_eq, eq_iff,
  if◌then◌else◌, if_false, arith, Bool-cases, Option-cases, inl, inr, All,
}
use riemann_go.Base.Float.{Float}
use riemann_go.Rule.{Instance, Compiled, new_instance}
use riemann_go.Engine.State.{Loop}
use riemann_go.Engine.Placement.{insert_rule, remove_rule, replace_rule, place_rule}
use riemann_go.Engine.Loops.{install, uninstall, is_global, same}
use riemann_go.Engine.Instances.{
  IsAfter, IsAscending, IsApart, ne_of_lt, replace_rule-none, replace_rule-overwrite, overwrite,
  place_rule-new, place_rule-old, place_rule-IsAscending, remove_rule-IsAscending,
}

module _ {F Pr : Type 0} where
  unfoldable pub find_rule : String → List (Instance F Pr) → Option (Instance F Pr)
  find_rule id [] = none
  find_rule id (r ∷ rs) = if str_eq r.c.id id then some r else find_rule id rs

  find_rule-after :
      (id : String) (rs : List (Instance F Pr)) → All (IsAfter id) rs → find_rule id rs ≡ none
  unfolding find_rule
  find_rule-after id [] h = refl
  find_rule-after id (r ∷ rs) h = if_false _ _ (ne_of_lt id r.c.id h.0) ∙ find_rule-after id rs h.1

  find_rule-insert_rule :
      (id : String) (i : Instance F Pr) (rs : List (Instance F Pr))
      → All (IsApart i.c.id) rs
      → find_rule id (insert_rule i rs) ≡ (if str_eq i.c.id id then some i else find_rule id rs)
  unfolding find_rule insert_rule
  find_rule-insert_rule id i [] n = refl
  find_rule-insert_rule id i (r ∷ rs) n = ground (
    arith,
    find_rule-insert_rule id i rs n.1,
    n.0,
    eq_iff i.c.id id,
    eq_iff r.c.id id,
    eq_iff r.c.id i.c.id,
  )

  find_rule-replace_rule :
      (id : String) (i : Instance F Pr) (rs rs' : List (Instance F Pr))
      → replace_rule i rs ≡ some rs'
      → find_rule id rs' ≡ (if str_eq i.c.id id then some i else find_rule id rs)
  unfolding replace_rule find_rule overwrite
  find_rule-replace_rule id i [] rs' h = absurd (ground (arith, h))
  find_rule-replace_rule id i (r ∷ rs) rs' h = elim (Bool-cases (str_eq r.c.id i.c.id)) [
    | inl e ↦ ground (
      arith,
      h,
      e,
      eq_iff r.c.id i.c.id,
      eq_iff i.c.id id,
      eq_iff r.c.id id,
      ap (find_rule id) (replace_rule-overwrite i (r ∷ rs) rs' h),
    )
    | inr e ↦ elim (Option-cases (replace_rule i rs)) [
      | inl n ↦ absurd (ground (arith, h, n))
      | inr (rest, f) ↦ ground (
        arith,
        h,
        e,
        f,
        find_rule-replace_rule id i rs rest f,
        eq_iff r.c.id i.c.id,
        eq_iff i.c.id id,
        eq_iff r.c.id id,
        ap (find_rule id) (replace_rule-overwrite i (r ∷ rs) rs' h),
        ap (find_rule id) (replace_rule-overwrite i rs rest f),
      )
    ]
  ]

  find_rule-place_rule :
      (id : String) (i : Instance F Pr) (rs : List (Instance F Pr))
      → IsAscending rs
      → find_rule id (place_rule i rs) ≡ (if str_eq i.c.id id then some i else find_rule id rs)
  find_rule-place_rule id i rs h = elim (Option-cases (replace_rule i rs)) [
    | inl n ↦
        ap (find_rule id) (place_rule-new i rs h n)
        ∙ find_rule-insert_rule id i rs (replace_rule-none i rs n)
    | inr (rs', f) ↦
        ap (find_rule id) (place_rule-old i rs rs' f) ∙ find_rule-replace_rule id i rs rs' f
  ]

  find_rule-remove_rule :
      (id j : String) (rs : List (Instance F Pr))
      → IsAscending rs
      → find_rule id (remove_rule j rs) ≡ (if str_eq j id then none else find_rule id rs)
  unfolding find_rule remove_rule
  find_rule-remove_rule id j [] h = ground arith
  find_rule-remove_rule id j (r ∷ rs) h = elim (Bool-cases (str_eq r.c.id id)) [
    | inl e ↦
        let gone : find_rule id rs ≡ none =
          subst (λ x. find_rule x rs ≡ none) ((eq_iff r.c.id id).0 e)
            (find_rule-after r.c.id rs h.0) in
        ground (
          arith,
          e,
          gone,
          eq_iff r.c.id j,
          eq_iff j id,
          eq_iff r.c.id id,
          find_rule-remove_rule id j rs h.1,
        )
    | inr e ↦ ground (
      arith,
      e,
      eq_iff r.c.id j,
      eq_iff j id,
      eq_iff r.c.id id,
      find_rule-remove_rule id j rs h.1,
    )
  ]

module _ {F Pr : Type 0} ⦃fl : Float F⦄ where
  -- A rule runs on the global loop just when its partition is global.
  unfoldable pub belongs : Compiled F Pr → Loop F Pr → Bool
  belongs c l = same (str_eq c.partition "global") (is_global l)

  pub install-IsAscending :
      (c : Compiled F Pr) (l : Loop F Pr) → IsAscending l.rules → IsAscending (install c l).rules
  unfolding install belongs
  install-IsAscending c l h = elim (Bool-cases (belongs c l)) [
    | inl e ↦ rw e (place_rule-IsAscending (new_instance c l.rt).0 l.rules h)
    | inr e ↦ rw e (remove_rule-IsAscending c.id l.rules h)
  ]

  pub find_rule-install :
      (id : String) (c : Compiled F Pr) (l : Loop F Pr)
      → IsAscending l.rules
      → find_rule id (install c l).rules ≡ (
          if str_eq c.id id
          then if belongs c l then some (new_instance c l.rt).0 else none
          else find_rule id l.rules)
  unfolding install belongs new_instance
  find_rule-install id c l h = elim (Bool-cases (belongs c l)) [
    | inl e ↦ rw e (find_rule-place_rule id (new_instance c l.rt).0 l.rules h)
    | inr e ↦ rw e (find_rule-remove_rule id c.id l.rules h)
  ]

  pub find_rule-uninstall :
      (id j : String) (l : Loop F Pr)
      → IsAscending l.rules
      → find_rule id (uninstall j l).rules ≡ (if str_eq j id then none else find_rule id l.rules)
  unfolding uninstall
  find_rule-uninstall id j l h = find_rule-remove_rule id j l.rules h

  pub uninstall-IsAscending :
      (id : String) (l : Loop F Pr) → IsAscending l.rules → IsAscending (uninstall id l).rules
  unfolding uninstall
  uninstall-IsAscending id l h = remove_rule-IsAscending id l.rules h
