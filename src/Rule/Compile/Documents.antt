-- ===== src/Rule/Compile/Documents.antt =====
-- compile.go: Parse and compileDoc. The fuel of `node` is one more than the sizes of the stream and of
-- the bindings, each of them counted once.
use riemann_go.Base.{
  ℕ, suc, ◌+◌, Bool, true, false, ◌||◌, not, Option, none, some, List, [], ◌∷◌, String, str_eq,
  if◌then◌else◌,
}
use riemann_go.Base.Float.{Float, pos}
use riemann_go.Base.Json.{
  Json, null, bool, string, object, Members, no_members, member, get, put, remove, size,
}
use riemann_go.Event.{ok, err, default_to, sort_strings}
use riemann_go.Rule.{Template, Compiled, Options}
use riemann_go.Rule.Compile.Defs.{
  Toolchain, Compiler, Outcome, ◌>>=◌, ◌>>◌, perr, require, or_fail, not_object, no_id, id_mismatch,
  no_owner, partition_not_string, unknown_partition, no_match, match_invalid, enabled_not_bool,
  expires_at_not_number, no_stream, bindings_not_object, needs_global,
}
use riemann_go.Rule.Compile.Heads.{string_of, filled, to_float}
use riemann_go.Rule.Compile.Nodes.{compile_binding, node, given}

-- What compileDoc reads before it compiles the tree.
pub record Settings (F Pr : Type 0) : Type 0 where
  pub id : String
  pub owner : String
  pub partition : String
  pub match : Pr
  pub enabled : Bool
  pub expires_at : F
  pub has_expiry : Bool
  pub stream : Json
  pub bindings : Members

unfoldable pub checked_id : String → String → Outcome String
checked_id id path_id =
    if str_eq id ""
    then if str_eq path_id "" then err (perr "" no_id) else ok path_id
    else if str_eq path_id "" || str_eq id path_id
    then ok id
    else err (perr id id_mismatch)

unfoldable pub read_id : Members → String → Outcome String
unfolding checked_id
read_id doc path_id = checked_id (default_to "" (string_of (get "id" doc))) path_id

unfoldable pub is_partition : String → Bool
is_partition s = str_eq s "host" || str_eq s "host,service" || str_eq s "global"

unfoldable pub read_partition : String → Option Json → Outcome String
unfolding is_partition
read_partition id none = ok "host"
read_partition id (some (string s)) =
    if is_partition s then ok s else err (perr id unknown_partition)
read_partition id (some _) = err (perr id partition_not_string)

unfoldable pub read_enabled : String → Option Json → Outcome Bool
read_enabled id none = ok true
read_enabled id (some (bool b)) = ok b
read_enabled id (some _) = err (perr id enabled_not_bool)

unfoldable pub read_bindings : String → Option Json → Outcome Members
read_bindings id none = ok no_members
read_bindings id (some null) = ok no_members
read_bindings id (some (object m)) = ok m
read_bindings id (some _) = err (perr id bindings_not_object)

unfoldable pub binding_names : Members → List String
binding_names no_members = []
binding_names (member k j m) = k ∷ binding_names m

unfoldable pub binding_sizes : Members → ℕ
binding_sizes no_members = 0
binding_sizes (member k j m) = suc (size j) + binding_sizes m

unfoldable pub normalize : String → String → Bool → Members → Members
normalize id partition enabled doc =
    remove "version"
      (put "enabled" (bool enabled) (put "partition" (string partition) (put "id" (string id) doc)))

unfoldable pub new_compiler : {F Pr : Type 0} → Compiler F Pr
new_compiler = record {
  has_coalesce = false;
  paths = [];
  compiled = [];
  in_flight = λ name. false;
  seen = λ path. false;
}

module _ {F Pr : Type 0} ⦃fl : Float F⦄ (tc : Toolchain F Pr) where
  -- The time of expiry, and whether there is one.
  unfoldable pub read_expiry : String → Option Json → Outcome (F × Bool)
  read_expiry id none = ok (fl.of_ℤ (pos 0), false)
  read_expiry id (some v) = do
    x ← or_fail (to_float tc (some v)) (perr id expires_at_not_number)
    ok (x, true)

  unfoldable pub read_settings : Members → String → Outcome (Settings F Pr)
  unfolding given
  read_settings doc path_id = do
    id ← read_id doc path_id
    owner ← or_fail (filled (get "owner" doc)) (perr id no_owner)
    partition ← read_partition id (get "partition" doc)
    match ← or_fail (filled (get "match" doc)) (perr id no_match)
    prog ← or_fail (tc.compile_predicate match false) (perr id match_invalid)
    enabled ← read_enabled id (get "enabled" doc)
    (expires_at, has_expiry) ← read_expiry id (given (get "expires_at" doc))
    stream ← or_fail (given (get "stream" doc)) (perr id no_stream)
    bindings ← read_bindings id (get "bindings" doc)
    ok (record {
      id = id;
      owner = owner;
      partition = partition;
      match = prog;
      enabled = enabled;
      expires_at = expires_at;
      has_expiry = has_expiry;
      stream = stream;
      bindings = bindings;
    })

  -- The loop over the names of the bindings
  unfoldable pub compile_bindings :
      ℕ → Members → List String → Compiler F Pr → Outcome (Compiler F Pr)
  compile_bindings fuel bindings [] s = ok s
  compile_bindings fuel bindings (name ∷ names) s = do
    (t, s') ← compile_binding tc bindings (node tc bindings fuel) name false s
    compile_bindings fuel bindings names s'

  unfoldable pub compile_tree : Json → Members → Outcome (Template F Pr × Compiler F Pr)
  unfolding binding_sizes new_compiler compile_bindings
  compile_tree stream bindings = do
    let fuel = suc (size stream + binding_sizes bindings)
    (root, s) ← node tc bindings fuel stream "stream" false new_compiler
    s' ← compile_bindings fuel bindings (sort_strings (binding_names bindings)) s
    ok (root, s')

  -- The compiled rule, and its normalized document, which the source keeps as the rule's Doc.
  unfoldable pub compile_doc : Members → String → Options → Outcome (Compiled F Pr × Members)
  unfolding read_settings compile_tree normalize
  compile_doc doc path_id opts = do
    c ← read_settings doc path_id
    (root, s) ← compile_tree c.stream c.bindings
    require (not s.has_coalesce || str_eq c.partition "global") (perr c.id needs_global)
    let norm = normalize c.id c.partition c.enabled doc
    ok (
      record {
        id = c.id;
        owner = c.owner;
        partition = c.partition;
        match = c.match;
        enabled = c.enabled;
        expires_at = c.expires_at;
        has_expiry = c.has_expiry;
        version = 0;
        hash = tc.digest norm;
        root = root;
        has_coalesce = s.has_coalesce;
        paths = sort_strings s.paths;
        opts = opts;
      },
      norm,
    )

  -- Parse, of what the decoder makes of the body: none for a body that is no object, or is null.
  unfoldable pub parse : Option Members → String → Options → Outcome (Compiled F Pr × Members)
  unfolding compile_doc
  parse none path_id opts = err (perr "" not_object)
  parse (some doc) path_id opts = compile_doc doc path_id opts
