-- ===== src/Rule/Compile/Settings.antt =====
-- compile.go: what the keys of a node are read into is what its op requires: the proofs.
use riemann_go.Base.{
  ℕ, zero, suc, ◌≤◌, ◌≡◌, ◌≢◌, ◌↔◌, ◌⊎◌, inl, inr, refl, Bool, true, false, ◌&&◌, Option, none,
  some, List, [], ◌∷◌, String, All, arith, Option-cases, str_eq, eq_iff,
}
use riemann_go.Base.Float.{Float, ℤ, pos, negsuc}
use riemann_go.Base.Json.{
  Json, string, array, null, bool, number, object, Items, no_items, item, Members, no_members,
  member, get,
}
use riemann_go.Event.{valid_field_name}
use riemann_go.Rule.{Templates}
use riemann_go.Rule.Compile.Defs.{
  Toolchain, no_expr, expr_invalid, no_fields, by_not_field, limit_invalid, window_invalid,
  set_not_field, set_not_expr, duration_invalid, field_invalid,
}
use riemann_go.Rule.Compile.Post.{Post, returns, throws, ◌⟫◌, require-Post, or_fail-Post, if_Post}
use riemann_go.Rule.Compile.Heads.{
  Head, string_of, filled, field_of, some_items, some_members, is_own_field, read_fields,
  read_initial, to_float, whole, positive_int, positive, read_set, read_where, read_by,
  read_changed_state, read_throttle, read_set_node, read_stable, read_head,
}
use riemann_go.Rule.Compile.Nodes.{build}
use riemann_go.Rule.Compile.Shape.{IsWellSet}

field_of-valid :
    (v : Option Json) (name : String) → field_of v ≡ some name → valid_field_name name ≡ true
unfolding field_of
field_of-valid v name h = elim (Option-cases (string_of v)) [
  | inl e ↦ absurd (ground (arith, h, e))
  | inr (s, e) ↦ ground (arith, h, e)
]

abbrev IsOwn : String → Type 0
IsOwn f = (f ≡ "host") ⊎ (f ≡ "service")

is_own_field_iff : (f : String) → (is_own_field f ≡ true) ↔ IsOwn f
unfolding is_own_field
is_own_field_iff f = ground (arith, eq_iff f "host", eq_iff f "service")

abbrev AreFields : List String × Bool → Type 0
AreFields (names, freeable) =
    All (λ f. valid_field_name f ≡ true) names × ((freeable ≡ true) ↔ All IsOwn names)

and_true : (a b : Bool) → (a && b) ≡ true → (a ≡ true) × (b ≡ true)
and_true a b h = ground arith

and_iff :
    (f : String) (names : List String) (b : Bool)
    → ((b ≡ true) ↔ All IsOwn names)
    → ((is_own_field f && b) ≡ true) ↔ All IsOwn (f ∷ names)
and_iff f names b h = (
  λ e. let (own, rest) = and_true (is_own_field f) b e in ((is_own_field_iff f).0 own, h.0 rest),
  λ a. rw ((is_own_field_iff f).1 a.0, h.1 a.1),
)

read_fields-Post : (path : String) (js : Items) → Post AreFields (read_fields path js)
unfolding read_fields
read_fields-Post path no_items = returns (tt, (λ _. tt, λ _. refl))
read_fields-Post path (item f fs) = or_fail-Post (field_of (some f)) path by_not_field ⟫ λ name e.
    read_fields-Post path fs ⟫ λ (names, freeable) h.
    returns ((field_of-valid _ name e, h.0), and_iff name names freeable h.1)

ℤ-cases : (z : ℤ) → ((n : ℕ) × (z ≡ pos n)) ⊎ ((n : ℕ) × (z ≡ negsuc n))
ℤ-cases (pos n) = inl (n, refl)
ℤ-cases (negsuc n) = inr (n, refl)

read_initial-Post :
    (path : String) (v : Option Json) → Post (λ (s : String). Unit {0}) (read_initial path v)
unfolding read_initial
read_initial-Post path none = returns tt
read_initial-Post path (some (string s)) = returns tt
read_initial-Post path (some _) = throws

pub some_items_inv :
    (v : Option Json) (js : Items)
    → some_items v ≡ some js
    → (v ≡ some (array js)) × (js ≢ no_items)
unfolding some_items
some_items_inv none js h = cc
some_items_inv (some null) js h = cc
some_items_inv (some (bool _)) js h = cc
some_items_inv (some (number _)) js h = cc
some_items_inv (some (string _)) js h = cc
some_items_inv (some (object _)) js h = cc
some_items_inv (some (array no_items)) js h = cc
some_items_inv (some (array (item j js'))) js h = (cc, λ e. cc)

some_members_inv : (v : Option Json) (m : Members) → some_members v ≡ some m → m ≢ no_members
unfolding some_members
some_members_inv none m h e = cc
some_members_inv (some null) m h e = cc
some_members_inv (some (bool _)) m h e = cc
some_members_inv (some (number _)) m h e = cc
some_members_inv (some (string _)) m h e = cc
some_members_inv (some (array _)) m h e = cc
some_members_inv (some (object no_members)) m h e = cc
some_members_inv (some (object (member k j m'))) m h e = cc

read_fields_some-Post :
    (path : String) (js : Items)
    → js ≢ no_items
    → Post
        (λ r.
          (r.0 ≢ []) × All (λ f. valid_field_name f ≡ true) r.0 × ((r.1 ≡ true) ↔ All IsOwn r.0))
        (read_fields path js)
unfolding read_fields
read_fields_some-Post path no_items h = absurd (h refl)
read_fields_some-Post path (item f fs) h =
    or_fail-Post (field_of (some f)) path by_not_field ⟫ λ name e.
    read_fields-Post path fs ⟫ λ (names, freeable) h.
    returns ((λ e'. cc), (field_of-valid _ name e, h.0), and_iff name names freeable h.1)

module _ {F Pr : Type 0} ⦃fl : Float F⦄ (tc : Toolchain F Pr) where
  abbrev IsWellRead : Head F Pr → Type 0
  IsWellRead h = (path : String) (kids : Templates F Pr) → IsWellSet (build h path kids)

  -- No number that is 1 at least is equal to 0.
  not_zero : (x : F) → fl.flt x (fl.of_ℤ (pos 1)) ≡ false → fl.feq x (fl.of_ℤ (pos 0)) ≡ true → ⊥
  not_zero x h e =
      let (low, high, real, _) = fl.feq_flt x (fl.of_ℤ (pos 0)) e in
      elim (fl.flt_split (fl.of_ℤ (pos 0)) x (fl.of_ℤ (pos 1)) real fl.zero_lt_one) [
        | inl a ↦ cc
        | inr b ↦ cc
      ]

  whole-le : (x : F) (n : ℕ) → whole tc x ≡ some n → 1 ≤ n
  unfolding whole
  whole-le x (suc n) h = omega arith
  whole-le x zero h = elim (ℤ-cases (tc.truncate x)) [
    | inl (m, e) ↦ ground (arith, not_zero x, e)
    | inr (m, e) ↦ ground (arith, e)
  ]

  positive_int-le : (x : Option F) (n : ℕ) → positive_int tc x ≡ some n → 1 ≤ n
  unfolding positive_int
  positive_int-le none n h = cc
  positive_int-le (some x) n h = whole-le x n h

  positive-fle :
      (x : Option F) (y : F) → positive tc x ≡ some y → fl.fle y (fl.of_ℤ (pos 0)) ≡ false
  unfolding positive
  positive-fle none y h = cc
  positive-fle (some x) y h = ground arith

  read_where-Post :
      (m : Members) (path : String) (inside : Bool) → Post IsWellRead (read_where tc m path inside)
  unfolding read_where build IsWellSet
  read_where-Post m path inside = or_fail-Post (filled (get "expr" m)) path no_expr ⟫ λ src e.
      or_fail-Post (tc.compile_predicate src inside) path expr_invalid ⟫ λ prog e'.
      returns (λ p k. tt)

  abbrev AreSet : List (String × Pr) → Type 0
  AreSet = All (λ p. valid_field_name p.0 ≡ true)

  read_set-Post :
      (path : String) (inside : Bool) (m : Members) → Post AreSet (read_set tc path inside m)
  unfolding read_set
  read_set-Post path inside no_members = returns tt
  read_set-Post path inside (member name v m) =
      require-Post (valid_field_name name) path set_not_field ⟫ λ u valid.
      or_fail-Post (string_of (some v)) path set_not_expr ⟫ λ src e.
      or_fail-Post (tc.compile_value src inside) path expr_invalid ⟫ λ prog e'.
      read_set-Post path inside m ⟫ λ rest h. returns (valid, h)

  read_set_some-Post :
      (path : String) (inside : Bool) (m : Members)
      → m ≢ no_members
      → Post (λ r. (r ≢ []) × AreSet r) (read_set tc path inside m)
  unfolding read_set
  read_set_some-Post path inside no_members h = absurd (h refl)
  read_set_some-Post path inside (member name v m) h =
      require-Post (valid_field_name name) path set_not_field ⟫ λ u valid.
      or_fail-Post (string_of (some v)) path set_not_expr ⟫ λ src e.
      or_fail-Post (tc.compile_value src inside) path expr_invalid ⟫ λ prog e'.
      read_set-Post path inside m ⟫ λ rest h'. returns ((λ e''. cc), (valid, h'))

  read_by-Post : (m : Members) (path : String) → Post IsWellRead (read_by tc m path)
  unfolding read_by build IsWellSet
  read_by-Post m path = or_fail-Post (some_items (get "fields" m)) path no_fields ⟫ λ js e.
      read_fields_some-Post path js (some_items_inv _ js e).1 ⟫ λ (names, freeable) h.
      returns (λ p k. h)

  read_set_node-Post :
      (m : Members) (path : String) (inside : Bool)
      → Post IsWellRead (read_set_node tc m path inside)
  unfolding read_set_node build IsWellSet
  read_set_node-Post m path inside =
      or_fail-Post (some_members (get "fields" m)) path no_fields ⟫ λ js e.
      read_set_some-Post path inside js (some_members_inv _ js e) ⟫ λ programs h. returns (λ p k. h)

  read_throttle-Post : (m : Members) (path : String) → Post IsWellRead (read_throttle tc m path)
  unfolding read_throttle build IsWellSet
  read_throttle-Post m path =
      or_fail-Post (positive_int tc (to_float tc (get "limit" m))) path limit_invalid ⟫ λ n e.
      or_fail-Post (positive tc (to_float tc (get "window_seconds" m))) path window_invalid
      ⟫ λ w e'. returns (λ p k. (positive_int-le _ n e, positive-fle _ w e'))

  read_stable-Post : (m : Members) (path : String) → Post IsWellRead (read_stable tc m path)
  unfolding read_stable build IsWellSet
  read_stable-Post m path =
      or_fail-Post (positive tc (to_float tc (get "duration_seconds" m))) path duration_invalid
      ⟫ λ d e. or_fail-Post (field_of (get "field" m)) path field_invalid ⟫ λ f e'.
          returns (λ p k. (positive-fle _ d e, field_of-valid _ f e'))

  read_changed_state-Post :
      (m : Members) (path : String) → Post IsWellRead (read_changed_state tc m path)
  unfolding read_changed_state build IsWellSet
  read_changed_state-Post m path =
      read_initial-Post path (get "initial" m) ⟫ λ s u. returns (λ p k. tt)

  -- Whatever is read for a node fits its op.
  pub read_head-Post :
      (op : String) (m : Members) (path : String) (inside : Bool)
      → Post IsWellRead (read_head tc op m path inside)
  unfolding read_head build IsWellSet
  read_head-Post op m path inside = if_Post (str_eq op "where") (read_where-Post m path inside) (
      if_Post (str_eq op "by") (read_by-Post m path) (
        if_Post (str_eq op "changed-state") (read_changed_state-Post m path) (
          if_Post (str_eq op "throttle") (read_throttle-Post m path) (
            if_Post (str_eq op "set") (read_set_node-Post m path inside) (
              if_Post (str_eq op "coalesce") (returns (λ p k. tt)) (
                if_Post (str_eq op "ddt") (returns (λ p k. tt))
                  (if_Post (str_eq op "stable") (read_stable-Post m path) throws)))))))
