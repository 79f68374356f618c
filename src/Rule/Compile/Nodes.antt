-- ===== src/Rule/Compile/Nodes.antt =====
-- compile.go: newTemplate, binding, node and thresholdLiteral. `node` takes fuel, and its parts take the
-- compiler of a smaller node as an argument. Go's maps `passed` and `discards` are with the runtime.
use Prim.Native.String.{[] as no_text, ◌∷◌ as ◌∷ₜ◌, find}
use Prim.Native.Char.{code}
use riemann_go.Base.{
  ℕ, zero, suc, ◌+◌, Bool, true, false, ◌&&◌, ◌||◌, not, Option, none, some, [], ◌∷◌, ◌++◌, String,
  str_eq, len, leb, ◌==◌, ◌<>◌, if◌then◌else◌,
}
use riemann_go.Base.Float.{Float}
use riemann_go.Base.Assoc.{lookup, insert, string_eq}
use riemann_go.Base.Decimal.{itoa}
use riemann_go.Base.Json.{
  Json, null, bool, number, string, array, object, Items, no_items, item, Members, get,
  count_members,
}
use riemann_go.Event.{ok, err}
use riemann_go.Rule.{
  Template, sink_node, where_node, by_node, changed_state_node, throttle_node, splitp_node,
  set_node, coalesce_node, ddt_node, stable_node, Templates, no_more, also, Branches, no_branch,
  branch,
}
use riemann_go.Rule.Compile.Defs.{
  Toolchain, Compiler, assign, Outcome, ◌>>=◌, ◌>>◌, perr, out_of_fuel, require, or_fail,
  names_no_binding, self_reference, node_not_object, ref_not_name, unknown_sink, no_op, no_children,
  children_not_array, expr_invalid, test_invalid, no_branches, no_otherwise, has_children,
  branch_invalid, branch_incomplete, threshold_invalid,
}
use riemann_go.Rule.Compile.Heads.{
  Head, where_head, by_head, changed_state_head, throttle_head, set_head, coalesce_head, ddt_head,
  stable_head, string_of, filled, some_items, read_head,
}

-- strings.ReplaceAll(s, "{}", literal)
unfoldable pub fill_braces : String → String → String
fill_braces literal no_text = no_text
fill_braces literal (c ∷ₜ no_text) = c ∷ₜ no_text
fill_braces literal (c ∷ₜ (d ∷ₜ s)) =
    let filled : String = literal <> fill_braces literal s in
    let kept : String = c ∷ₜ fill_braces literal (d ∷ₜ s) in
    if code c == b'{' && code d == b'}' then filled else kept

-- strings.Contains(s, "{}")
has_braces : String → Bool
has_braces s = leb (find s "{}") (len s)

unfoldable pub test_of : Option String → Option String
unfolding has_braces
test_of none = none
test_of (some s) = if has_braces s then some s else none

-- A value that is neither absent nor null
unfoldable pub given : Option Json → Option Json
given (some null) = none
given v = v

-- A branch, as an object of exactly two names
unfoldable pub branch_members : Json → Option Members
branch_members (object m) = if count_members m == 2 then some m else none
branch_members _ = none

unfoldable pub is_absent : Option Json → Bool
is_absent none = true
is_absent (some v) = false

unfoldable pub known_sink : Option String → Option String
known_sink none = none
known_sink (some name) =
    if str_eq name "ntfy" || str_eq name "influx" || str_eq name "index" then some name else none

abbrev pub NodeCompiler : Type 0 → Type 0 → Type 0
NodeCompiler F Pr = Json → String → Bool → Compiler F Pr → Outcome (Template F Pr × Compiler F Pr)

module _ {F Pr : Type 0} where
  unfoldable pub new_template : String → Compiler F Pr → Compiler F Pr
  new_template path s = record s {
    paths = if s.seen path then s.paths else s.paths ++ path ∷ [];
    seen = assign path true s.seen;
  }

  unfoldable pub begin_binding : String → Compiler F Pr → Compiler F Pr
  begin_binding name s = record s { in_flight = assign name true s.in_flight }

  unfoldable pub end_binding : String → Template F Pr → Compiler F Pr → Compiler F Pr
  end_binding name t s = record s {
    in_flight = assign name false s.in_flight;
    compiled = insert name t s.compiled;
  }

  -- The coalesce case marks the rule.
  unfoldable pub mark : Head F Pr → Compiler F Pr → Compiler F Pr
  mark coalesce_head s = record s { has_coalesce = true }
  mark _ s = s

  unfoldable pub build : Head F Pr → String → Templates F Pr → Template F Pr
  build (where_head prog) path kids = where_node path prog kids
  build (by_head names freeable) path kids = by_node path names freeable kids
  build (changed_state_head initial) path kids = changed_state_node path initial kids
  build (throttle_head limit window) path kids = throttle_node path limit window kids
  build (set_head programs) path kids = set_node path programs kids
  build coalesce_head path kids = coalesce_node path kids
  build ddt_head path kids = ddt_node path kids
  build (stable_head duration field) path kids = stable_node path duration field kids

  unfoldable pub compile_sink :
      Json → String → Compiler F Pr → Outcome (Template F Pr × Compiler F Pr)
  unfolding new_template known_sink
  compile_sink v path s = do
    name ← or_fail (known_sink (string_of (some v))) (perr path unknown_sink)
    ok (sink_node path name, new_template path s)

  unfoldable pub compile_items :
      NodeCompiler F Pr
      → String
      → Bool
      → ℕ
      → Items
      → Compiler F Pr
      → Outcome (Templates F Pr × Compiler F Pr)
  compile_items rec path inside k no_items s = ok (no_more, s)
  compile_items rec path inside k (item j js) s = do
    (t, s1) ← rec j (path <> "/" <> itoa k) inside s
    (ts, s2) ← compile_items rec path inside (k + 1) js s1
    ok (also t ts, s2)

  unfoldable pub compile_children :
      NodeCompiler F Pr
      → Option Json
      → String
      → Bool
      → Compiler F Pr
      → Outcome (Templates F Pr × Compiler F Pr)
  compile_children rec (some (array js)) path inside s = compile_items rec path inside 0 js s
  compile_children rec (some _) path inside s = err (perr path children_not_array)
  compile_children rec none path inside s = err (perr path no_children)

module _ {F Pr : Type 0} ⦃fl : Float F⦄ (tc : Toolchain F Pr) where
  -- A number in its own spelling: the decoder makes no float64.
  unfoldable pub threshold_literal : Json → Option String
  threshold_literal (number s) = some s
  threshold_literal (string s) = some (tc.quote s)
  threshold_literal (bool true) = some "true"
  threshold_literal (bool false) = some "false"
  threshold_literal _ = none

  -- A case with children.
  unfoldable pub compile_op :
      NodeCompiler F Pr
      → String
      → Members
      → String
      → Bool
      → Compiler F Pr
      → Outcome (Template F Pr × Compiler F Pr)
  unfolding new_template mark build compile_children
  compile_op rec op m path inside s = do
    head ← read_head tc op m path inside
    (kids, s') ←
        compile_children rec (get "children" m) path (inside || str_eq op "coalesce")
          (new_template path (mark head s))
    ok (build head path kids, s')

  unfoldable pub compile_branches :
      NodeCompiler F Pr
      → String
      → String
      → Bool
      → ℕ
      → Items
      → Compiler F Pr
      → Outcome (Branches F Pr × Compiler F Pr)
  unfolding branch_members threshold_literal fill_braces
  compile_branches rec test path inside k no_items s = ok (no_branch, s)
  compile_branches rec test path inside k (item b bs) s = do
    let bpath = path <> "/branches/" <> itoa k
    bm ← or_fail (branch_members b) (perr bpath branch_invalid)
    thr ← or_fail (get "threshold" bm) (perr bpath branch_incomplete)
    sub ← or_fail (get "stream" bm) (perr bpath branch_incomplete)
    literal ← or_fail (threshold_literal thr) (perr bpath threshold_invalid)
    prog ←
        or_fail (tc.compile_predicate (fill_braces literal test) inside) (perr bpath expr_invalid)
    (t, s1) ← rec sub bpath inside s
    (rest, s2) ← compile_branches rec test path inside (k + 1) bs s1
    ok (branch prog t rest, s2)

  unfoldable pub compile_splitp :
      NodeCompiler F Pr
      → Members
      → String
      → Bool
      → Compiler F Pr
      → Outcome (Template F Pr × Compiler F Pr)
  unfolding new_template test_of given is_absent compile_branches
  compile_splitp rec m path inside s = do
    test ← or_fail (test_of (string_of (get "test" m))) (perr path test_invalid)
    branches ← or_fail (some_items (get "branches" m)) (perr path no_branches)
    otherwise ← or_fail (given (get "otherwise" m)) (perr path no_otherwise)
    require (is_absent (get "children" m)) (perr path has_children)
    (bs, s1) ← compile_branches rec test path inside 0 branches (new_template path s)
    (o, s2) ← rec otherwise (path <> "/otherwise") inside s1
    ok (splitp_node path bs o, s2)

  module _ (bindings : Members) where
    -- A binding that has been compiled, or one that has not.
    unfoldable pub found_or_compiled :
        NodeCompiler F Pr
        → String
        → Bool
        → Compiler F Pr
        → Option (Template F Pr)
        → Outcome (Template F Pr × Compiler F Pr)
    unfolding begin_binding end_binding
    found_or_compiled rec name inside s (some t) = ok (t, s)
    found_or_compiled rec name inside s none = do
      raw ← or_fail (get name bindings) (perr name names_no_binding)
      require (not (s.in_flight name)) (perr name self_reference)
      (t, s') ← rec raw ("bindings/" <> name) inside (begin_binding name s)
      ok (t, end_binding name t s')

    unfoldable pub compile_binding :
        NodeCompiler F Pr → String → Bool → Compiler F Pr → Outcome (Template F Pr × Compiler F Pr)
    unfolding found_or_compiled
    compile_binding rec name inside s = found_or_compiled rec name inside s (lookup name s.compiled)

    -- By the values of ref and sink
    unfoldable pub compile_form :
        NodeCompiler F Pr
        → Option Json
        → Option Json
        → Members
        → String
        → Bool
        → Compiler F Pr
        → Outcome (Template F Pr × Compiler F Pr)
    unfolding compile_binding compile_sink compile_splitp compile_op
    compile_form rec (some ref) sink m path inside s = do
      name ← or_fail (filled (some ref)) (perr path ref_not_name)
      compile_binding rec name inside s
    compile_form rec none (some sink) m path inside s = compile_sink sink path s
    compile_form rec none none m path inside s = do
      op ← or_fail (filled (get "op" m)) (perr path no_op)
      if str_eq op "splitp"
          then compile_splitp rec m path inside s
          else compile_op rec op m path inside s

    unfoldable pub compile_json : NodeCompiler F Pr → NodeCompiler F Pr
    unfolding compile_form
    compile_json rec (object m) path inside s =
        compile_form rec (get "ref" m) (get "sink" m) m path inside s
    compile_json rec _ path inside s = err (perr path node_not_object)

    unfoldable pub node : ℕ → NodeCompiler F Pr
    unfolding compile_json
    node zero j path inside s = err out_of_fuel
    node (suc fuel) j path inside s = compile_json (node fuel) j path inside s
