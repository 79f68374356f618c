-- ===== src/Base/Json.antt =====
-- What encoding/json decodes into `any` under UseNumber: a number is its literal, and an object a map
-- from names to values. Encoding such a value and decoding it again gives the value.
use riemann_go.Base.Tests.{if◌then◌else◌, if_true, if_false, Bool-cases, some-eq}
use mathlib.Core.Path.{◌≡◌, refl, sym, ap, ◌∙◌}
use mathlib.Core.Logic.{inl, inr}
use native.Mathlib.Omega.{arith}
use text.Mathlib.TextEquality.{eq_iff}
use Prim.Native.Nat.{ℕ, suc, ◌+◌}
use Prim.Native.String.{String}
use mathlib.Core.Bool.{Bool}
use mathlib.Core.Option.{Option, none, some}
use text.Mathlib.Text.{◌==◌ as str_eq}

mutual
  pub data Json : Type 0 where
    null : Json
    bool : Bool → Json
    number : String → Json
    string : String → Json
    array : Items → Json
    object : Members → Json

  pub data Items : Type 0 where
    no_items : Items
    item : Json → Items → Items

  pub data Members : Type 0 where
    no_members : Members
    member : String → Json → Members → Members

unfoldable mutual
  pub size : Json → ℕ
  size (array js) = suc (size_items js)
  size (object m) = suc (size_members m)
  size _ = 1

  pub size_items : Items → ℕ
  size_items no_items = 0
  size_items (item j js) = size j + size_items js

  pub size_members : Members → ℕ
  size_members no_members = 0
  size_members (member k j m) = size j + size_members m

unfoldable pub get : String → Members → Option Json
get k no_members = none
get k (member i j m) = if str_eq i k then some j else get k m

-- `m[k] = v`
unfoldable pub put : String → Json → Members → Members
put k v no_members = member k v no_members
put k v (member i j m) = if str_eq i k then member i v m else member i j (put k v m)

-- `delete(m, k)`
unfoldable pub remove : String → Members → Members
remove k no_members = no_members
remove k (member i j m) = let rest = remove k m in if str_eq i k then rest else member i j rest

-- `len(m)` of a map, whose names are distinct
unfoldable pub count_members : Members → ℕ
count_members no_members = 0
count_members (member k j m) = suc (count_members m)

pub get-put :
    (k j : String) (v : Json) (m : Members)
    → get j (put k v m) ≡ (if str_eq k j then some v else get j m)
unfolding get put
get-put k j v no_members = refl
get-put k j v (member i w m) = ground (arith, eq_iff k j, eq_iff i k, eq_iff i j, get-put k j v m)

pub get-remove :
    (k j : String) (m : Members) → get j (remove k m) ≡ (if str_eq k j then none else get j m)
unfolding get remove
get-remove k j no_members = ground arith
get-remove k j (member i w m) = ground (arith, eq_iff k j, eq_iff i k, eq_iff i j, get-remove k j m)

-- A write of what is there, and a removal of what is not, change nothing.
pub put_same : (k : String) (v : Json) (m : Members) → get k m ≡ some v → put k v m ≡ m
unfolding get put
put_same k v no_members h = cc
put_same k v (member i w m) h = elim (Bool-cases (str_eq i k)) [
  | inl e ↦ rw e (ap (λ x. member i x m) (sym (some-eq w v (sym (if_true _ _ e) ∙ h))))
  | inr e ↦ rw e (ap (member i w) (put_same k v m (sym (if_false _ _ e) ∙ h)))
]

pub remove-none : (k : String) (m : Members) → get k m ≡ none → remove k m ≡ m
unfolding get remove
remove-none k no_members h = refl
remove-none k (member i w m) h = elim (Bool-cases (str_eq i k)) [
  | inl e ↦ cc (sym (if_true (some w) (get k m) e) ∙ h)
  | inr e ↦ rw e (ap (member i w) (remove-none k m (sym (if_false _ _ e) ∙ h)))
]
