-- ===== src/Rule/Compile/Heads.antt =====
-- compile.go: the keys of a node that has an op other than splitp, less its children (the cases of
-- `node`). An error ends the compilation, so that the order in which a path is registered and the keys
-- are checked cannot be seen.
use riemann_go.Base.{
  ℕ, Bool, true, ◌&&◌, ◌||◌, not, Option, none, some, List, [], ◌∷◌, String, str_eq, if◌then◌else◌,
}
use riemann_go.Base.Float.{Float, ℤ, pos, negsuc}
use riemann_go.Base.Json.{
  Json, number, string, array, object, Items, no_items, item, Members, no_members, member, get,
}
use riemann_go.Event.{ok, err, valid_field_name}
use riemann_go.Rule.Compile.Defs.{
  Toolchain, Outcome, ◌>>=◌, ◌>>◌, perr, require, or_fail, no_expr, expr_invalid, no_fields,
  by_not_field, initial_not_string, limit_invalid, window_invalid, set_not_field, set_not_expr,
  duration_invalid, field_invalid, unknown_op,
}

pub data Head (F Pr : Type 0) : Type 0 where
  where_head : Pr → Head F Pr
  by_head : List String → Bool → Head F Pr
  changed_state_head : String → Head F Pr
  throttle_head : ℕ → F → Head F Pr
  set_head : List (String × Pr) → Head F Pr
  coalesce_head : Head F Pr
  ddt_head : Head F Pr
  stable_head : F → String → Head F Pr

-- `v.(string)`
unfoldable pub string_of : Option Json → Option String
string_of (some (string s)) = some s
string_of _ = none

non_empty : Option String → Option String
non_empty none = none
non_empty (some s) = if str_eq s "" then none else some s

-- `s, ok := v.(string)`, where ok and a text that is not empty are required
unfoldable pub filled : Option Json → Option String
unfolding string_of non_empty
filled v = non_empty (string_of v)

field_checked : Option String → Option String
field_checked none = none
field_checked (some s) = if valid_field_name s then some s else none

-- the same, for the name of an event field
unfoldable pub field_of : Option Json → Option String
unfolding string_of field_checked
field_of v = field_checked (string_of v)

-- `v.([]any)`, where an item is required
unfoldable pub some_items : Option Json → Option Items
some_items (some (array (item j js))) = some (item j js)
some_items _ = none

-- `v.(map[string]any)`, where a name is required
unfoldable pub some_members : Option Json → Option Members
some_members (some (object (member k j m))) = some (member k j m)
some_members _ = none

unfoldable pub is_own_field : String → Bool
is_own_field name = str_eq name "host" || str_eq name "service"

-- The names, and whether the node is freeable.
unfoldable pub read_fields : String → Items → Outcome (List String × Bool)
unfolding is_own_field
read_fields path no_items = ok ([], true)
read_fields path (item f fs) = do
  name ← or_fail (field_of (some f)) (perr path by_not_field)
  (names, freeable) ← read_fields path fs
  ok (name ∷ names, is_own_field name && freeable)

unfoldable pub read_initial : String → Option Json → Outcome String
read_initial path none = ok ""
read_initial path (some (string s)) = ok s
read_initial path (some _) = err (perr path initial_not_string)

unfoldable pub nat_of : ℤ → Option ℕ
nat_of (pos n) = some n
nat_of (negsuc n) = none

module _ {F Pr : Type 0} ⦃fl : Float F⦄ (tc : Toolchain F Pr) where
  -- toFloat, of what the decoder can make
  unfoldable pub to_float : Option Json → Option F
  to_float (some (number s)) = tc.parse_float s
  to_float _ = none

  unfoldable pub whole : F → Option ℕ
  unfolding nat_of
  whole x =
      let n = tc.truncate x in
      if fl.flt x (fl.of_ℤ (pos 1)) || not (fl.feq x (fl.of_ℤ n)) then none else nat_of n

  -- An integer from 1 on, as int(x) makes it; a negative one cannot be equal to such an x.
  unfoldable pub positive_int : Option F → Option ℕ
  unfolding whole
  positive_int none = none
  positive_int (some x) = whole x

  unfoldable pub positive : Option F → Option F
  positive none = none
  positive (some x) = if fl.fle x (fl.of_ℤ (pos 0)) then none else some x

  unfoldable pub read_set : String → Bool → Members → Outcome (List (String × Pr))
  read_set path inside no_members = ok []
  read_set path inside (member name v m) = do
    require (valid_field_name name) (perr path set_not_field)
    src ← or_fail (string_of (some v)) (perr path set_not_expr)
    prog ← or_fail (tc.compile_value src inside) (perr path expr_invalid)
    rest ← read_set path inside m
    ok ((name, prog) ∷ rest)

  unfoldable pub read_where : Members → String → Bool → Outcome (Head F Pr)
  read_where m path inside = do
    src ← or_fail (filled (get "expr" m)) (perr path no_expr)
    prog ← or_fail (tc.compile_predicate src inside) (perr path expr_invalid)
    ok (where_head prog)

  unfoldable pub read_by : Members → String → Outcome (Head F Pr)
  read_by m path = do
    arr ← or_fail (some_items (get "fields" m)) (perr path no_fields)
    (names, freeable) ← read_fields path arr
    ok (by_head names freeable)

  unfoldable pub read_changed_state : Members → String → Outcome (Head F Pr)
  read_changed_state m path = do
    initial ← read_initial path (get "initial" m)
    ok (changed_state_head initial)

  unfoldable pub read_throttle : Members → String → Outcome (Head F Pr)
  read_throttle m path = do
    limit ← or_fail (positive_int (to_float (get "limit" m))) (perr path limit_invalid)
    window ← or_fail (positive (to_float (get "window_seconds" m))) (perr path window_invalid)
    ok (throttle_head limit window)

  unfoldable pub read_set_node : Members → String → Bool → Outcome (Head F Pr)
  read_set_node m path inside = do
    fields ← or_fail (some_members (get "fields" m)) (perr path no_fields)
    programs ← read_set path inside fields
    ok (set_head programs)

  unfoldable pub read_stable : Members → String → Outcome (Head F Pr)
  read_stable m path = do
    duration ← or_fail (positive (to_float (get "duration_seconds" m))) (perr path duration_invalid)
    field ← or_fail (field_of (get "field" m)) (perr path field_invalid)
    ok (stable_head duration field)

  unfoldable pub read_head : String → Members → String → Bool → Outcome (Head F Pr)
  read_head op m path inside =
      if str_eq op "where"
      then read_where m path inside
      else if str_eq op "by"
      then read_by m path
      else if str_eq op "changed-state"
      then read_changed_state m path
      else if str_eq op "throttle"
      then read_throttle m path
      else if str_eq op "set"
      then read_set_node m path inside
      else if str_eq op "coalesce"
      then ok coalesce_head
      else if str_eq op "ddt"
      then ok ddt_head
      else if str_eq op "stable"
      then read_stable m path
      else err (perr path unknown_op)
