-- ===== src/Tests/CompileTests.antt =====
-- The theorems on the compiler of rules, at a document with a binding, a throttle, a coalesce and a splitp.
use riemann_go.Base.{
  ◌≡◌, ◌≢◌, refl, arith, Bool, true, false, Option, none, some, [], ◌∷◌, String, str_eq,
  if◌then◌else◌,
}
use riemann_go.Base.Float.{pos, negsuc}
use riemann_go.Base.Json.{
  Json, bool, number, string, array, object, no_items, item, Members, no_members, member,
  count_members, get, put, remove, size,
}
use riemann_go.Event.{ok, err, insert_sorted, sort_strings}
use riemann_go.Rule.{
  Template, sink_node, throttle_node, splitp_node, coalesce_node, also, no_more, branch, no_branch,
  Compiled, Options,
}
use riemann_go.Base.Assoc.{insert, lookup}
use riemann_go.Base.Decimal.{digits, itoa}
use riemann_go.Rule.Compile
use riemann_go.Rule.Compile.Shape.{AllNodes, is_coalesce, path_of, IsWellSet}
use riemann_go.Rule.Compile.Accepted.{
  compile_doc-IsWellSet, compile_doc-fleet_wide, compile_doc-paths, compile_doc-ends,
}
use riemann_go.Rule.Compile.Again.{compile_doc-again}
use riemann_go.Rule.Compile.{
  holds, IsAscending, ◌>>=◌, Toolchain, compile_doc, perr, out_of_fuel, self_reference,
  needs_global,
}
use riemann_go.Engine.{Engine, new_engine}
use riemann_go.Http.{answered, put_rule_request, rule_options}
use riemann_go.Http.Puts.{code_of, put_rule_request-again}
use riemann_go.Tests.Samples.{Tick, nan, tick, tick_float, Program, always, sample_engine}

abbrev number_of : String → Option Tick
number_of s = if str_eq s "5" then some (tick 5) else if str_eq s "0" then some (tick 0) else none

abbrev sample_tools : Toolchain Tick Program
sample_tools = record {
  compile_predicate = λ src inside. if str_eq src "" then none else some always;
  compile_value = λ src inside. some always;
  parse_float = number_of;
  truncate = λ x. elim x [ nan ↦ negsuc 0 | tick n ↦ pos n ];
  quote = λ s. s;
  digest = λ m. "abc";
}

abbrev with_op : String → Members → Json
with_op op m = object (member "op" (string op) m)

abbrev page : Json
page = object (member "ref" (string "page") no_members)

abbrev sample_branches : Json
sample_branches = array (
    item
      (object (
        member "threshold" (number "5")
          (member "stream" (object (member "sink" (string "index") no_members)) no_members)))
      no_items)

abbrev sample_splitp : Json
sample_splitp = with_op "splitp" (
    member "test" (string "metric > {}")
      (member "branches" sample_branches (member "otherwise" page no_members)))

abbrev children : Json → Members → Members
children j m = member "children" (array (item j no_items)) m

abbrev sample_stream : Json
sample_stream = with_op "throttle" (
    member "limit" (number "5") (
      member "window_seconds" (number "5")
        (children (with_op "coalesce" (children sample_splitp no_members)) no_members)))

abbrev document : String → Json → Members
document partition binding = member "owner" (string "ops") (
    member "match" (string "true") (
      member "partition" (string partition) (
        member "version" (number "5") (
          member "bindings" (object (member "page" binding no_members))
            (member "stream" sample_stream no_members)))))

abbrev to_ntfy : Json
to_ntfy = object (member "sink" (string "ntfy") no_members)

abbrev options : Options
options = record { stable_buffer_capacity = 2 }

abbrev page_node : Template Tick Program
page_node = sink_node "bindings/page" "ntfy"

abbrev compiled_rule : Compiled Tick Program
compiled_rule = record {
  id = "disk";
  owner = "ops";
  partition = "global";
  match = always;
  enabled = true;
  expires_at = tick 0;
  has_expiry = false;
  version = 0;
  hash = "abc";
  root = throttle_node "stream" 5 (tick 5) (
      also
        (coalesce_node "stream/0" (
          also
            (splitp_node "stream/0/0"
              (branch always (sink_node "stream/0/0/branches/0" "index") no_branch) page_node)
            no_more))
        no_more);
  has_coalesce = true;
  paths = "bindings/page" ∷ "stream" ∷ "stream/0" ∷ "stream/0/0" ∷ "stream/0/0/branches/0" ∷ [];
  opts = options;
}

abbrev normalized : Members
normalized = member "owner" (string "ops") (
    member "match" (string "true") (
      member "partition" (string "global") (
        member "bindings" (object (member "page" to_ntfy no_members)) (
          member "stream" sample_stream
            (member "id" (string "disk") (member "enabled" (bool true) no_members))))))

-- A document that is accepted, one that would need the global partition, and one whose binding refers to
-- itself.
compiled :
    (compile_doc sample_tools (document "global" to_ntfy) "disk" options
      ≡ ok (compiled_rule, normalized))
    × (compile_doc sample_tools (document "host" to_ntfy) "disk" options
        ≡ err (perr "disk" needs_global))
    × (compile_doc sample_tools (document "global" page) "disk" options
        ≡ err (perr "page" self_reference))
unfolding Compile.or_fail Compile.require Compile.assign Compile.string_of Compile.filled
    Compile.field_of Compile.is_own_field Compile.nat_of Compile.whole Compile.positive_int
    Compile.positive Compile.to_float Compile.some_items Compile.some_members Compile.read_fields
    Compile.read_initial Compile.read_set Compile.read_where Compile.read_by
    Compile.read_changed_state Compile.read_throttle Compile.read_set_node Compile.read_stable
    Compile.read_head Compile.given Compile.branch_members Compile.is_absent Compile.known_sink
    Compile.test_of Compile.threshold_literal Compile.fill_braces Compile.new_template
    Compile.begin_binding Compile.end_binding Compile.mark Compile.build Compile.compile_items
    Compile.compile_children Compile.compile_op Compile.compile_branches Compile.compile_splitp
    Compile.compile_sink Compile.found_or_compiled Compile.compile_binding Compile.compile_form
    Compile.compile_json Compile.node Compile.checked_id Compile.read_id Compile.is_partition
    Compile.read_partition Compile.read_enabled Compile.read_bindings Compile.read_expiry
    Compile.read_settings Compile.binding_names Compile.binding_sizes insert_sorted sort_strings
    Compile.normalize Compile.new_compiler Compile.compile_bindings Compile.compile_tree compile_doc
    ◌>>=◌ insert lookup digits itoa count_members get put remove size
compiled = (refl, refl, refl)

compile_doc-IsWellSet_example : AllNodes IsWellSet compiled_rule.root
compile_doc-IsWellSet_example =
    compile_doc-IsWellSet sample_tools (document "global" to_ntfy) "disk" options compiled_rule
      normalized compiled.0

compile_doc-fleet_wide_example :
    AllNodes (λ t. is_coalesce t ≡ true → compiled_rule.partition ≡ "global") compiled_rule.root
compile_doc-fleet_wide_example =
    compile_doc-fleet_wide sample_tools (document "global" to_ntfy) "disk" options compiled_rule
      normalized compiled.0

compile_doc-paths_example :
    IsAscending compiled_rule.paths
    × AllNodes (λ t. holds (path_of t) compiled_rule.paths ≡ true) compiled_rule.root
compile_doc-paths_example =
    compile_doc-paths sample_tools (document "global" to_ntfy) "disk" options compiled_rule
      normalized compiled.0

compile_doc-again_example :
    compile_doc sample_tools normalized "disk" options ≡ ok (compiled_rule, normalized)
compile_doc-again_example =
    compile_doc-again sample_tools (document "global" to_ntfy) "disk" options compiled_rule
      normalized compiled.0

compile_doc-ends_example :
    compile_doc sample_tools (document "global" page) "disk" options ≢ err out_of_fuel
compile_doc-ends_example = compile_doc-ends sample_tools (document "global" page) "disk" options

-- The text "{}" stands for the document and any other for its normalized form with the version 5.
abbrev decode_body : String → Option Members
decode_body s =
    if str_eq s "{}"
    then some (document "global" to_ntfy)
    else some (put "version" (number "5") normalized)

same_options : rule_options sample_engine ≡ options
unfolding rule_options new_engine
same_options = refl

compiled_by_engine :
    compile_doc sample_tools (document "global" to_ntfy) "disk" (rule_options sample_engine)
    ≡ ok (compiled_rule, normalized)
compiled_by_engine = rw same_options compiled.0

put_rule_request-again_example :
    (created : Bool) × (c' : Compiled Tick Program) × (e' : Engine Tick Program) × (put_rule_request
        sample_tools decode_body "disk"
        (some "{}")
        sample_engine
      ≡ (answered (code_of created) c', e'))
    × (put_rule_request sample_tools decode_body "disk" (some "again") e' ≡ (answered 200 c', e'))
put_rule_request-again_example =
    put_rule_request-again sample_tools decode_body "disk" "{}" "again" (document "global" to_ntfy)
      normalized (number "5") compiled_rule sample_engine (omega arith) (omega arith) refl refl
      compiled_by_engine
