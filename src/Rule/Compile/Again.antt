-- ===== src/Rule/Compile/Again.antt =====
-- compile.go: the normalized document of an accepted rule is accepted as the same rule.
use riemann_go.Base.{
  ◌≡◌, ◌⊎◌, refl, ◌∙◌, ap, subst, Bool, true, false, ◌||◌, not, Option, none, some, String, str_eq,
  eq_iff, eq_refl, arith, if◌then◌else◌, if_true, if_false,
}
use riemann_go.Base.Float.{Float}
use riemann_go.Base.Json.{
  Json, bool, string, Members, no_members, member, get, put, remove, get-put, get-remove, put_same,
  remove-none,
}
use riemann_go.Event.{sort_strings, ok, err, default_to}
use riemann_go.Rule.{Template, Compiled, Options}
use riemann_go.Rule.Compile.Defs.{
  Toolchain, Compiler, Outcome, ◌>>=◌, perr, require, or_fail, needs_global, unknown_partition,
  no_owner, no_match, match_invalid, no_stream,
}
use riemann_go.Rule.Compile.Post.{of_ok}
use riemann_go.Rule.Compile.Heads.{string_of, filled}
use riemann_go.Rule.Compile.Nodes.{given}
use riemann_go.Rule.Compile.Documents.{
  Settings, checked_id, read_id, is_partition, read_partition, read_enabled, read_bindings,
  read_expiry, read_settings, compile_tree, normalize, compile_doc,
}
use riemann_go.Rule.Compile.Identity.{read_partition-Post}

-- A chain that succeeds, by its first step.
bind_elim :
    {A B X : Type 0} {m : Outcome A} {f : A → Outcome B} {b : B}
    → (m >>= f) ≡ ok b
    → ((a : A) → m ≡ ok a → f a ≡ ok b → X)
    → X
unfolding ◌>>=◌
bind_elim {m = ok a} h k = k a refl h
bind_elim {m = err e} h k = cc

ok-eq : {A : Type 0} (a b : A) → ◌≡◌ {A = Outcome A} (ok a) (ok b) → a ≡ b
ok-eq a b h = cc

get-normalize :
    (id partition : String) (enabled : Bool) (doc : Members) (k : String)
    → get k (normalize id partition enabled doc) ≡ (
        if str_eq "version" k
        then none
        else if str_eq "enabled" k
        then some (bool enabled)
        else if str_eq "partition" k
        then some (string partition)
        else if str_eq "id" k
        then some (string id)
        else get k doc)
unfolding normalize
get-normalize id partition enabled doc k = simp (get-remove, get-put)

normalize_again :
    (id partition : String) (enabled : Bool) (doc : Members)
    → normalize id partition enabled (normalize id partition enabled doc)
      ≡ normalize id partition enabled doc
unfolding normalize remove
normalize_again id partition enabled doc =
    let norm = normalize id partition enabled doc in
    let at = get-normalize id partition enabled doc in
    ap (λ m. remove "version" (put "enabled" (bool enabled) (put "partition" (string partition) m)))
      (put_same "id" (string id) norm (at "id"))
    ∙ ap (λ m. remove "version" (put "enabled" (bool enabled) m))
        (put_same "partition" (string partition) norm (at "partition"))
    ∙ ap (remove "version") (put_same "enabled" (bool enabled) norm (at "enabled"))
    ∙ remove-none "version" norm (at "version")

-- A document that differs from a normalized one at most in its version has the entries that the settings
-- are read from.
get-like :
    (id partition : String) (enabled : Bool) (doc n : Members)
    → ((j : String)
        → str_eq "version" j ≡ false
        → get j n ≡ get j (normalize id partition enabled doc))
    → (k : String) → str_eq "version" k ≡ false
    → get k n ≡ (
        if str_eq "enabled" k
        then some (bool enabled)
        else if str_eq "partition" k
        then some (string partition)
        else if str_eq "id" k
        then some (string id)
        else get k doc)
get-like id partition enabled doc n like k e =
    like k e ∙ get-normalize id partition enabled doc k ∙ if_false _ _ e

remove-put : (k : String) (v : Json) (m : Members) → remove k (put k v m) ≡ remove k m
unfolding put remove
remove-put k v no_members = ground (arith, eq_refl k)
remove-put k v (member i w m) = ground (arith, eq_iff i k, remove-put k v m)

normalize-versioned :
    (id partition : String) (enabled : Bool) (doc : Members) (v : Json)
    → normalize id partition enabled (put "version" v (normalize id partition enabled doc))
      ≡ normalize id partition enabled doc
unfolding normalize
normalize-versioned id partition enabled doc v =
    let norm = normalize id partition enabled doc in
    let at = get-normalize id partition enabled doc in
    let n = put "version" v norm in
    ap (λ m. remove "version" (put "enabled" (bool enabled) (put "partition" (string partition) m)))
      (put_same "id" (string id) n (get-put "version" "id" v norm ∙ at "id"))
    ∙ ap (λ m. remove "version" (put "enabled" (bool enabled) m))
        (put_same "partition" (string partition) n
          (get-put "version" "partition" v norm ∙ at "partition"))
    ∙ ap (remove "version")
        (put_same "enabled" (bool enabled) n (get-put "version" "enabled" v norm ∙ at "enabled"))
    ∙ remove-put "version" v norm
    ∙ remove-none "version" norm (at "version")

is_partition-of :
    (s : String) → (s ≡ "host") ⊎ ((s ≡ "host,service") ⊎ (s ≡ "global")) → is_partition s ≡ true
unfolding is_partition
is_partition-of s h = ground (arith, h, eq_iff s "host", eq_iff s "host,service", eq_iff s "global")

checked_id_again :
    (x path_id id : String) → checked_id x path_id ≡ ok id → checked_id id path_id ≡ ok id
unfolding checked_id
checked_id_again x path_id id h =
    ground
      (arith, h, eq_iff x "", eq_iff path_id "", eq_iff x path_id, eq_iff id "", eq_iff id path_id)

read_partition_again :
    (id : String) (v : Option Json) (partition : String)
    → read_partition id v ≡ ok partition
    → read_partition id (some (string partition)) ≡ ok partition
unfolding read_partition
read_partition_again id v partition h =
    let known = of_ok (rw h at (read_partition-Post id v)) in
    if_true (ok partition) (err (perr id unknown_partition)) (is_partition-of partition known)

read_id_again :
    (doc norm : Members) (path_id id : String)
    → read_id doc path_id ≡ ok id
    → get "id" norm ≡ some (string id)
    → read_id norm path_id ≡ ok id
unfolding read_id string_of
read_id_again doc norm path_id id h e =
    rw e (checked_id_again (default_to "" (string_of (get "id" doc))) path_id id h)

read_enabled_again : (id : String) (b : Bool) → read_enabled id (some (bool b)) ≡ ok b
unfolding read_enabled
read_enabled_again id b = refl

module _ {F Pr : Type 0} ⦃fl : Float F⦄ (tc : Toolchain F Pr) where
  -- The settings that a document is read into, from its entries.
  read_settings_of :
      (doc : Members) (path_id : String) (c : Settings F Pr) (match : String)
      → read_id doc path_id ≡ ok c.id
      → or_fail (filled (get "owner" doc)) (perr c.id no_owner) ≡ ok c.owner
      → read_partition c.id (get "partition" doc) ≡ ok c.partition
      → or_fail (filled (get "match" doc)) (perr c.id no_match) ≡ ok match
      → or_fail (tc.compile_predicate match false) (perr c.id match_invalid) ≡ ok c.match
      → read_enabled c.id (get "enabled" doc) ≡ ok c.enabled
      → read_expiry tc c.id (given (get "expires_at" doc)) ≡ ok (c.expires_at, c.has_expiry)
      → or_fail (given (get "stream" doc)) (perr c.id no_stream) ≡ ok c.stream
      → read_bindings c.id (get "bindings" doc) ≡ ok c.bindings
      → read_settings tc doc path_id ≡ ok c
  unfolding read_settings ◌>>=◌
  read_settings_of doc path_id c match e1 e2 e3 e4 e5 e6 e7 e8 e9 =
      rw (e1, e2, e3, e4, e5, e6, e7, e8, e9)

  -- What is read from a document is read from its normalized form, with any version.
  read_settings_again :
      (doc n : Members) (path_id : String) (c : Settings F Pr)
      → read_settings tc doc path_id ≡ ok c
      → ((k : String)
          → str_eq "version" k ≡ false
          → get k n ≡ get k (normalize c.id c.partition c.enabled doc))
      → read_settings tc n path_id ≡ ok c
  unfolding read_settings
  read_settings_again doc n path_id c h = bind_elim h λ id e1 h1. bind_elim h1 λ owner e2 h2.
      bind_elim h2 λ partition e3 h3. bind_elim h3 λ match e4 h4. bind_elim h4 λ prog e5 h5.
        bind_elim h5 λ enabled e6 h6. bind_elim h6 λ expiry e7 h7. bind_elim h7 λ stream e8 h8.
          bind_elim h8 λ bindings e9 h9.
            subst
              (λ (c : Settings F Pr).
                ((k : String)
                  → str_eq "version" k ≡ false
                  → get k n ≡ get k (normalize c.id c.partition c.enabled doc))
                → read_settings tc n path_id ≡ ok c)
              (ok-eq _ _ h9)
              (λ like.
                let at = get-like id partition enabled doc n like in
                read_settings_of n path_id
                  (record {
                    id = id;
                    owner = owner;
                    partition = partition;
                    match = prog;
                    enabled = enabled;
                    expires_at = expiry.0;
                    has_expiry = expiry.1;
                    stream = stream;
                    bindings = bindings;
                  })
                  match (read_id_again doc n path_id id e1 (at "id" refl)) (rw (at "owner" refl) e2)
                  (rw (at "partition" refl)
                    (read_partition_again id (get "partition" doc) partition e3))
                  (rw (at "match" refl) e4) e5
                  (rw (at "enabled" refl) (read_enabled_again id enabled))
                  (rw (at "expires_at" refl) e7) (rw (at "stream" refl) e8)
                  (rw (at "bindings" refl) e9))

  abbrev accepted :
      Settings F Pr → Template F Pr × Compiler F Pr → Options → Members → Compiled F Pr
  accepted c tree opts norm = record {
    id = c.id;
    owner = c.owner;
    partition = c.partition;
    match = c.match;
    enabled = c.enabled;
    expires_at = c.expires_at;
    has_expiry = c.has_expiry;
    version = 0;
    hash = tc.digest norm;
    root = tree.0;
    has_coalesce = tree.1.has_coalesce;
    paths = sort_strings tree.1.paths;
    opts = opts;
  }

  -- A document that is read into settings is accepted if its tree compiles and may have a coalesce.
  compile_doc_of :
      (doc norm : Members) (path_id : String) (opts : Options) (c : Settings F Pr)
      (tree : Template F Pr × Compiler F Pr) (u : Unit {0})
      → read_settings tc doc path_id ≡ ok c
      → compile_tree tc c.stream c.bindings ≡ ok tree
      → require (not tree.1.has_coalesce || str_eq c.partition "global") (perr c.id needs_global)
        ≡ ok u
      → normalize c.id c.partition c.enabled doc ≡ norm
      → compile_doc tc doc path_id opts ≡ ok (accepted c tree opts norm, norm)
  unfolding compile_doc ◌>>=◌
  compile_doc_of doc norm path_id opts c tree u e1 e2 e3 same = rw (e1, e2, e3, same)

  -- A document is accepted as a rule that was if it differs from the normalized one at most in its
  -- version, and has the same normalized form.
  compile_doc_like :
      (doc n : Members) (path_id : String) (opts : Options) (c : Compiled F Pr) (norm : Members)
      → compile_doc tc doc path_id opts ≡ ok (c, norm)
      → ((k : String) → str_eq "version" k ≡ false → get k n ≡ get k norm)
      → ((id partition : String) (enabled : Bool)
          → normalize id partition enabled doc ≡ norm
          → normalize id partition enabled n ≡ norm)
      → compile_doc tc n path_id opts ≡ ok (c, norm)
  unfolding compile_doc
  compile_doc_like doc n path_id opts c norm h = bind_elim h λ cs e1 h1. bind_elim h1 λ tree e2 h2.
      bind_elim h2 λ u e3 h3.
        subst
          (λ (r : Compiled F Pr × Members).
            ((k : String) → str_eq "version" k ≡ false → get k n ≡ get k r.1)
            → ((id partition : String) (enabled : Bool)
                → normalize id partition enabled doc ≡ r.1
                → normalize id partition enabled n ≡ r.1)
            → compile_doc tc n path_id opts ≡ ok r)
          (ok-eq _ _ h3)
          (λ like same.
            compile_doc_of n (normalize cs.id cs.partition cs.enabled doc) path_id opts cs tree u
              (read_settings_again doc n path_id cs e1 like) e2 e3
              (same cs.id cs.partition cs.enabled refl))

  -- The normalized document of an accepted rule is accepted, by the same path id, as the same rule with
  -- the same hash, and is its own normalized form.
  pub compile_doc-again :
      (doc : Members) (path_id : String) (opts : Options) (c : Compiled F Pr) (norm : Members)
      → compile_doc tc doc path_id opts ≡ ok (c, norm)
      → compile_doc tc norm path_id opts ≡ ok (c, norm)
  compile_doc-again doc path_id opts c norm h =
      compile_doc_like doc norm path_id opts c norm h (λ k e. refl)
        (λ id partition enabled same.
          subst (λ m. normalize id partition enabled m ≡ m) same
            (normalize_again id partition enabled doc))

  -- The same of that document with any version, which is what a rule's Doc is once it is stored.
  pub compile_doc-versioned :
      (doc : Members) (path_id : String) (opts : Options) (c : Compiled F Pr) (norm : Members)
      (v : Json)
      → compile_doc tc doc path_id opts ≡ ok (c, norm)
      → compile_doc tc (put "version" v norm) path_id opts ≡ ok (c, norm)
  compile_doc-versioned doc path_id opts c norm v h =
      compile_doc_like doc (put "version" v norm) path_id opts c norm h
        (λ k e. get-put "version" k v norm ∙ if_false _ _ e)
        (λ id partition enabled same.
          subst (λ m. normalize id partition enabled (put "version" v m) ≡ m) same
            (normalize-versioned id partition enabled doc v))
