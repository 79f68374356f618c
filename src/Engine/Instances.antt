-- ===== src/Engine/Instances.antt =====
-- The instances of a loop, in the order of their ids: control and removeRule (loop.go).
use riemann_go.Base.{
  ◌≡◌, refl, ap, sym, ◌∙◌, subst, true, false, none, some, List, [], ◌∷◌, ◌++◌, String, str_eq,
  eq_iff, if◌then◌else◌, if_true, if_false, arith, Bool-cases, Option-cases, inl, inr, All,
}
use riemann_go.Base.Text.{lt_str, lt_str_trans, lt_str_irrefl, lt_str_split, lt_str_asym}
use riemann_go.Rule.{Instance}
use riemann_go.Engine.Placement.{insert_rule, sort_rules, remove_rule, replace_rule, place_rule}

pub ne_of_lt : (a b : String) → lt_str a b ≡ true → str_eq b a ≡ false
ne_of_lt a b h = elim (Bool-cases (str_eq b a)) [
  | inr e ↦ e
  | inl e ↦
      let same : b ≡ a = (eq_iff b a).0 e in
      absurd (ground (arith, lt_str_irrefl a, ap (lt_str a) same))
]

str_eq-false_sym : (a b : String) → str_eq a b ≡ false → str_eq b a ≡ false
str_eq-false_sym a b h = ground (arith, eq_iff a b, eq_iff b a)

module _ {F Pr : Type 0} where
  abbrev pub IsAfter : String → Instance F Pr → Type 0
  IsAfter id r = lt_str id r.c.id ≡ true

  -- Each id is before all that follow, so that no id is there twice.
  abbrev pub IsAscending : List (Instance F Pr) → Type 0
  IsAscending [] = Unit
  IsAscending (r ∷ rs) = All (IsAfter r.c.id) rs × IsAscending rs

  All-IsAfter :
      (a b : String) (rs : List (Instance F Pr))
      → lt_str a b ≡ true
      → All (IsAfter b) rs
      → All (IsAfter a) rs
  All-IsAfter a b [] p h = tt
  All-IsAfter a b (r ∷ rs) p h = (lt_str_trans a b r.c.id p h.0, All-IsAfter a b rs p h.1)

  -- Insertion, among other ids

  insert_rule-front :
      (i : Instance F Pr) (rs : List (Instance F Pr))
      → All (IsAfter i.c.id) rs
      → insert_rule i rs ≡ i ∷ rs
  unfolding insert_rule
  insert_rule-front i [] h = refl
  insert_rule-front i (r ∷ rs) h = if_true _ _ h.0

  insert_rule-All :
      (id : String) (i : Instance F Pr) (rs : List (Instance F Pr))
      → IsAfter id i
      → All (IsAfter id) rs
      → All (IsAfter id) (insert_rule i rs)
  unfolding insert_rule
  insert_rule-All id i [] hi h = (hi, tt)
  insert_rule-All id i (r ∷ rs) hi h = elim (Bool-cases (lt_str i.c.id r.c.id)) [
    | inl e ↦ rw e (hi, h)
    | inr e ↦ rw e (h.0, insert_rule-All id i rs hi h.1)
  ]

  -- No instance has the id, so that each is before or after it.
  abbrev pub IsApart : String → Instance F Pr → Type 0
  IsApart id r = str_eq r.c.id id ≡ false

  before_of :
      (i r : Instance F Pr) → IsApart i.c.id r → lt_str i.c.id r.c.id ≡ false → IsAfter r.c.id i
  before_of i r h e = lt_str_split i.c.id r.c.id e (str_eq-false_sym r.c.id i.c.id h)

  insert_rule-IsAscending :
      (i : Instance F Pr) (rs : List (Instance F Pr))
      → All (IsApart i.c.id) rs
      → IsAscending rs
      → IsAscending (insert_rule i rs)
  unfolding insert_rule
  insert_rule-IsAscending i [] n h = (tt, tt)
  insert_rule-IsAscending i (r ∷ rs) n h = elim (Bool-cases (lt_str i.c.id r.c.id)) [
    | inl e ↦ rw e ((e, All-IsAfter i.c.id r.c.id rs e h.0), h)
    | inr e ↦ rw e (
      insert_rule-All r.c.id i rs (before_of i r n.0 e) h.0,
      insert_rule-IsAscending i rs n.1 h.1,
    )
  ]

  -- Sorting a sorted list with one more at its end inserts that one.
  pub sort_rules-insert :
      (i : Instance F Pr) (rs : List (Instance F Pr))
      → All (IsApart i.c.id) rs
      → IsAscending rs
      → sort_rules (rs ++ i ∷ []) ≡ insert_rule i rs
  unfolding sort_rules insert_rule
  sort_rules-insert i [] n h = refl
  sort_rules-insert i (r ∷ rs) n h =
      ap (insert_rule r) (sort_rules-insert i rs n.1 h.1)
      ∙ elim (Bool-cases (lt_str i.c.id r.c.id)) [
        | inl e ↦
            ap (insert_rule r) (insert_rule-front i rs (All-IsAfter i.c.id r.c.id rs e h.0))
            ∙ if_false _ _ (lt_str_asym i.c.id r.c.id e)
            ∙ ap (◌∷◌ i) (insert_rule-front r rs h.0)
            ∙ sym (if_true _ _ e)
        | inr e ↦
            insert_rule-front r (insert_rule i rs)
              (insert_rule-All r.c.id i rs (before_of i r n.0 e) h.0)
            ∙ sym (if_false _ _ e)
      ]

  -- Replacement, of the instance that has the id

  pub replace_rule-none :
      (i : Instance F Pr) (rs : List (Instance F Pr))
      → replace_rule i rs ≡ none
      → All (IsApart i.c.id) rs
  unfolding replace_rule
  replace_rule-none i [] h = tt
  replace_rule-none i (r ∷ rs) h = elim (Bool-cases (str_eq r.c.id i.c.id)) [
    | inl e ↦ absurd (ground (arith, h))
    | inr e ↦ elim (Option-cases (replace_rule i rs)) [
      | inl n ↦ (e, replace_rule-none i rs n)
      | inr (rs', f) ↦ absurd (ground (arith, h, f))
    ]
  ]

  unfoldable pub overwrite : Instance F Pr → List (Instance F Pr) → List (Instance F Pr)
  overwrite i [] = []
  overwrite i (r ∷ rs) = if str_eq r.c.id i.c.id then i ∷ rs else r ∷ overwrite i rs

  pub replace_rule-overwrite :
      (i : Instance F Pr) (rs rs' : List (Instance F Pr))
      → replace_rule i rs ≡ some rs'
      → rs' ≡ overwrite i rs
  unfolding replace_rule overwrite
  replace_rule-overwrite i [] rs' h = absurd (ground (arith, h))
  replace_rule-overwrite i (r ∷ rs) rs' h = elim (Bool-cases (str_eq r.c.id i.c.id)) [
    | inl e ↦ ground (arith, h, e)
    | inr e ↦ elim (Option-cases (replace_rule i rs)) [
      | inl n ↦ absurd (ground (arith, h, n))
      | inr (rest, f) ↦ ground (arith, h, e, f, replace_rule-overwrite i rs rest f)
    ]
  ]

  same_place :
      (id : String) (i r : Instance F Pr)
      → str_eq r.c.id i.c.id ≡ true
      → IsAfter id r
      → IsAfter id i
  same_place id i r e h = subst (λ x. lt_str id x ≡ true) ((eq_iff r.c.id i.c.id).0 e) h

  overwrite-All :
      (id : String) (i : Instance F Pr) (rs : List (Instance F Pr))
      → All (IsAfter id) rs
      → All (IsAfter id) (overwrite i rs)
  unfolding overwrite
  overwrite-All id i [] h = tt
  overwrite-All id i (r ∷ rs) h = elim (Bool-cases (str_eq r.c.id i.c.id)) [
    | inl e ↦ rw e (same_place id i r e h.0, h.1)
    | inr e ↦ rw e (h.0, overwrite-All id i rs h.1)
  ]

  overwrite-IsAscending :
      (i : Instance F Pr) (rs : List (Instance F Pr))
      → IsAscending rs
      → IsAscending (overwrite i rs)
  unfolding overwrite
  overwrite-IsAscending i [] h = tt
  overwrite-IsAscending i (r ∷ rs) h = elim (Bool-cases (str_eq r.c.id i.c.id)) [
    | inl e ↦ rw e (subst (λ x. All (IsAfter x) rs) ((eq_iff r.c.id i.c.id).0 e) h.0, h.1)
    | inr e ↦ rw e (overwrite-All r.c.id i rs h.0, overwrite-IsAscending i rs h.1)
  ]

  -- The theorems on control

  pub place_rule-new :
      (i : Instance F Pr) (rs : List (Instance F Pr))
      → IsAscending rs
      → replace_rule i rs ≡ none
      → place_rule i rs ≡ insert_rule i rs
  unfolding place_rule
  place_rule-new i rs h n = rw (n, place_rule) (sort_rules-insert i rs (replace_rule-none i rs n) h)

  pub place_rule-old :
      (i : Instance F Pr) (rs rs' : List (Instance F Pr))
      → replace_rule i rs ≡ some rs'
      → place_rule i rs ≡ rs'
  unfolding place_rule
  place_rule-old i rs rs' f = rw (f, place_rule)

  pub place_rule-IsAscending :
      (i : Instance F Pr) (rs : List (Instance F Pr))
      → IsAscending rs
      → IsAscending (place_rule i rs)
  place_rule-IsAscending i rs h = elim (Option-cases (replace_rule i rs)) [
    | inl n ↦
        subst IsAscending (sym (place_rule-new i rs h n))
          (insert_rule-IsAscending i rs (replace_rule-none i rs n) h)
    | inr (rs', f) ↦
        subst IsAscending (sym (place_rule-old i rs rs' f ∙ replace_rule-overwrite i rs rs' f))
          (overwrite-IsAscending i rs h)
  ]

  remove_rule-All :
      (id j : String) (rs : List (Instance F Pr))
      → All (IsAfter j) rs
      → All (IsAfter j) (remove_rule id rs)
  unfolding remove_rule
  remove_rule-All id j [] h = tt
  remove_rule-All id j (r ∷ rs) h = elim (Bool-cases (str_eq r.c.id id)) [
    | inl e ↦ rw e h.1
    | inr e ↦ rw e (h.0, remove_rule-All id j rs h.1)
  ]

  pub remove_rule-IsAscending :
      (id : String) (rs : List (Instance F Pr)) → IsAscending rs → IsAscending (remove_rule id rs)
  unfolding remove_rule
  remove_rule-IsAscending id [] h = tt
  remove_rule-IsAscending id (r ∷ rs) h = elim (Bool-cases (str_eq r.c.id id)) [
    | inl e ↦ rw e h.1
    | inr e ↦ rw e (remove_rule-All id r.c.id rs h.0, remove_rule-IsAscending id rs h.1)
  ]
