-- ===== src/Rule/Compile/Measure.antt =====
-- The measure by which the compilation of a node ends: the size of its JSON, and of the bindings that
-- are not being compiled.
use riemann_go.Base.{
  ℕ, suc, ◌+◌, ◌≤◌, ◌<◌, ◌≡◌, refl, Bool, true, false, some, String, if◌then◌else◌, arith, str_eq,
  eq_iff, Bool-cases, some-eq, sym, ◌∙◌, subst, if_true, if_false, inl, inr,
}
use riemann_go.Base.Json.{Json, Members, no_members, member, size, size_members, get}
use riemann_go.Rule.Compile.Defs.{assign}
use riemann_go.Rule.Compile.Documents.{binding_sizes}
use mathlib.Core.Path.{fun_ext}

unfoldable pub open_sizes : (String → Bool) → Members → ℕ
open_sizes busy no_members = 0
open_sizes busy (member k j m) = (if busy k then 0 else suc (size j)) + open_sizes busy m

le_trans : {a b c : ℕ} → a ≤ b → b ≤ c → a ≤ c
le_trans h k = omega arith

le_add : (a b : ℕ) → b ≤ a + b
le_add a b = omega arith

pub get-size : (k : String) (m : Members) (j : Json) → get k m ≡ some j → size j ≤ size_members m
unfolding get size
get-size k no_members j h = cc
get-size k (member i v m) j h = elim (Bool-cases (str_eq i k)) [
  | inl e ↦
      let same : v ≡ j = some-eq v j (sym (if_true _ _ e) ∙ h) in
      subst (λ x. size x ≤ size v + size_members m) same (omega arith)
  | inr e ↦ le_trans (get-size k m j (sym (if_false _ _ e) ∙ h)) (le_add (size v) (size_members m))
]

pub open_sizes-none : (m : Members) → open_sizes (λ name. false) m ≡ binding_sizes m
unfolding open_sizes binding_sizes
open_sizes-none no_members = refl
open_sizes-none (member k j m) = ground (arith, open_sizes-none m)

open_sizes-assign-le :
    (name : String) (busy : String → Bool) (m : Members)
    → open_sizes (assign name true busy) m ≤ open_sizes busy m
unfolding open_sizes assign
open_sizes-assign-le name busy no_members = omega arith
open_sizes-assign-le name busy (member k j m) = ground (arith, open_sizes-assign-le name busy m)

-- What begins to be compiled is taken off.
pub open_sizes-assign :
    (name : String) (busy : String → Bool) (m : Members) (j : Json)
    → get name m ≡ some j
    → busy name ≡ false
    → size j + open_sizes (assign name true busy) m < open_sizes busy m
unfolding open_sizes assign get
open_sizes-assign name busy no_members j h free = cc
open_sizes-assign name busy (member k v m) j h free = ground (
  arith,
  eq_iff k name,
  eq_iff name k,
  open_sizes-assign name busy m j,
  open_sizes-assign-le name busy m,
)

-- The mark of a binding is taken back when it is compiled.
pub assign-assign :
    (name : String) (busy : String → Bool)
    → busy name ≡ false
    → assign name false (assign name true busy) ≡ busy
unfolding assign
assign-assign name busy free = fun_ext (λ k. ground (arith, eq_iff name k))
