-- ===== src/Rule/Compile/Defs.antt =====
-- compile.go: the state of the compiler, its errors, and what it calls in other libraries.
use riemann_go.Base.{Bool, true, false, Option, none, some, String, List, str_eq, if◌then◌else◌}
use riemann_go.Base.Float.{ℤ}
use riemann_go.Base.Assoc.{Assoc}
use riemann_go.Base.Json.{Members}
use riemann_go.Event.{Result, ok, err}
use riemann_go.Rule.{Template}

-- What an error message says, less the texts that it quotes.
pub data Problem : Type 0 where
  not_object no_id id_mismatch no_owner partition_not_string unknown_partition : Problem
  no_match match_invalid enabled_not_bool expires_at_not_number no_stream : Problem
  bindings_not_object needs_global : Problem
  names_no_binding self_reference node_not_object ref_not_name unknown_sink no_op : Problem
  unknown_op no_children children_not_array no_expr expr_invalid no_fields by_not_field : Problem
  initial_not_string limit_invalid window_invalid test_invalid no_branches : Problem
  no_otherwise has_children branch_invalid branch_incomplete threshold_invalid : Problem
  set_not_field set_not_expr duration_invalid field_invalid : Problem

-- perr, by the rule's id, the binding's name or the node's path, and the problem. The compiler of the
-- source has no fuel, and so no error for it.
pub data ParseError : Type 0 where
  perr : String → Problem → ParseError
  out_of_fuel : ParseError

abbrev pub Outcome : Type 0 → Type 0
Outcome A = Result ParseError A

infixl 5 ◌>>=◌ ◌>>◌
unfoldable pub ◌>>=◌ : {A B : Type 0} → Outcome A → (A → Outcome B) → Outcome B
ok a >>= f = f a
err e >>= f = err e

abbrev pub ◌>>◌ : {B : Type 0} → Outcome (Unit {0}) → Outcome B → Outcome B
m >> k = m >>= λ _. k

-- `if !test { return perr(…) }`
unfoldable pub require : Bool → ParseError → Outcome (Unit {0})
require true e = ok tt
require false e = err e

unfoldable pub or_fail : {A : Type 0} → Option A → ParseError → Outcome A
or_fail none e = err e
or_fail (some a) e = ok a

-- expr-lang behind CompilePredicate and CompileValue (none: an error), json.Number's Float64 (none: an
-- error), the conversion int(x), strconv.Quote, and the digest in hexadecimal of an object's canonical
-- JSON.
pub record Toolchain (F Pr : Type 0) : Type 0 where
  pub compile_predicate : String → Bool → Option Pr
  pub compile_value : String → Bool → Option Pr
  pub parse_float : String → Option F
  pub truncate : F → ℤ
  pub quote : String → String
  pub digest : Members → String

-- The fields of the Go type, less the bindings, which do not change. The maps to booleans answer false
-- for a name that they do not hold. `has_coalesce` and `paths` are fields of the rule that is compiled.
pub record Compiler (F Pr : Type 0) : Type 0 where
  pub has_coalesce : Bool
  pub paths : List String
  pub compiled : Assoc String (Template F Pr)
  pub in_flight : String → Bool
  pub seen : String → Bool

-- `m[name] = b`
unfoldable pub assign : String → Bool → (String → Bool) → String → Bool
assign name b m k = if str_eq name k then b else m k
