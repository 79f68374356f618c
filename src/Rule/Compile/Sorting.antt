-- ===== src/Rule/Compile/Sorting.antt =====
-- sort.Strings on distinct texts: the same texts, in strictly ascending order.
use riemann_go.Base.{
  ◌≡◌, refl, ◌∙◌, true, false, ◌||◌, List, [], ◌∷◌, String, str_eq, eq_iff, All, arith, Bool-cases,
  inl, inr,
}
use riemann_go.Base.Text.{lt_str, lt_str_trans, lt_str_split}
use riemann_go.Event.{insert_sorted, sort_strings}
use riemann_go.Rule.Compile.Registry.{holds, IsDistinct}

-- Each text is before all that follow it.
unfoldable pub IsAscending : List String → Type 0
IsAscending [] = Unit
IsAscending (s ∷ ss) = All (λ t. lt_str s t ≡ true) ss × IsAscending ss

holds-insert :
    (s t : String) (ss : List String) → holds s (insert_sorted t ss) ≡ (str_eq t s || holds s ss)
unfolding insert_sorted holds
holds-insert s t [] = refl
holds-insert s t (x ∷ ss) = ground (arith, holds-insert s t ss)

pub holds-sort : (s : String) (ss : List String) → holds s (sort_strings ss) ≡ holds s ss
unfolding sort_strings holds
holds-sort s [] = refl
holds-sort s (t ∷ ss) = ground (arith, holds-insert s t (sort_strings ss), holds-sort s ss)

All-insert :
    (u s : String) (ss : List String)
    → lt_str u s ≡ true
    → All (λ t. lt_str u t ≡ true) ss
    → All (λ t. lt_str u t ≡ true) (insert_sorted s ss)
unfolding insert_sorted
All-insert u s [] h a = (h, tt)
All-insert u s (t ∷ ss) h a = elim (Bool-cases (lt_str s t)) [
  | inl e ↦ rw e (h, a)
  | inr e ↦ rw e (a.0, All-insert u s ss h a.1)
]

All-before :
    (s t : String) (ss : List String)
    → lt_str s t ≡ true
    → All (λ u. lt_str t u ≡ true) ss
    → All (λ u. lt_str s u ≡ true) ss
All-before s t [] h a = tt
All-before s t (u ∷ ss) h a = (lt_str_trans s t u h a.0, All-before s t ss h a.1)

insert_sorted-IsAscending :
    (s : String) (ss : List String)
    → holds s ss ≡ false
    → IsAscending ss
    → IsAscending (insert_sorted s ss)
unfolding insert_sorted holds IsAscending
insert_sorted-IsAscending s [] h a = (tt, tt)
insert_sorted-IsAscending s (t ∷ ss) h a = elim (Bool-cases (lt_str s t)) [
  | inl e ↦ rw e ((e, All-before s t ss e a.0), a)
  | inr e ↦ rw e (
    All-insert t s ss (lt_str_split s t e (ground (arith, h, eq_iff s t, eq_iff t s))) a.0,
    insert_sorted-IsAscending s ss (ground (arith, h)) a.1,
  )
]

pub sort_strings-IsAscending : (ss : List String) → IsDistinct ss → IsAscending (sort_strings ss)
unfolding sort_strings IsDistinct IsAscending
sort_strings-IsAscending [] d = tt
sort_strings-IsAscending (s ∷ ss) d =
    insert_sorted-IsAscending s (sort_strings ss) (holds-sort s ss ∙ d.0)
      (sort_strings-IsAscending ss d.1)
