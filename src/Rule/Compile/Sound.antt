-- ===== src/Rule/Compile/Sound.antt =====
-- compile.go: with enough fuel the compiler of a node ends, and what it makes is sound: the settings of
-- every node fit its op, its path is registered, and a coalesce marks the rule.
use riemann_go.Base.{
  ℕ, zero, suc, ◌+◌, ◌<◌, ◌≤◌, ◌≡◌, ◌≢◌, refl, sym, ◌∙◌, ap, inl, inr, Bool, true, false, ◌||◌, not,
  Option, none, some, ◌<>◌, String, str_eq, eq_iff, arith, Bool-cases, ◌⊎◌, ◌==◌, some-eq, if_true,
  if_false,
}
use riemann_go.Base.Float.{Float}
use riemann_go.Base.Assoc.{lookup, string_eq}
use riemann_go.Base.Decimal.{itoa}
use riemann_go.Base.Json.{
  Json, null, bool, number, string, array, object, Items, no_items, item, Members, get, size,
  count_members, size_items, size_members,
}
use riemann_go.Rule.{Template, Templates, Branches, no_branch}
use riemann_go.Rule.Compile.Defs.{
  Toolchain, Compiler, names_no_binding, self_reference, ref_not_name, unknown_sink, no_op,
  expr_invalid, test_invalid, no_branches, no_otherwise, has_children, branch_invalid,
  branch_incomplete, threshold_invalid,
}
use riemann_go.Rule.Compile.Post.{Post, returns, throws, ◌⟫◌, require-Post, or_fail-Post, if_Post}
use riemann_go.Rule.Compile.Heads.{string_of, filled, some_items}
use riemann_go.Rule.Compile.Nodes.{
  NodeCompiler, new_template, begin_binding, mark, compile_sink, compile_items, compile_children,
  compile_op, compile_branches, compile_splitp, compile_binding, compile_form, found_or_compiled,
  compile_json, node, given, fill_braces, threshold_literal, branch_members, test_of, is_absent,
  known_sink,
}
use riemann_go.Rule.Compile.Shape.{
  AllNodes, AllKids, AllBranches, AllNodes-map, AllBranches-map, IsWellSet,
}
use riemann_go.Rule.Compile.Settings.{read_head-Post, some_items_inv}
use riemann_go.Rule.Compile.Measure.{open_sizes, get-size, open_sizes-assign}
use riemann_go.Rule.Compile.Registry.{
  Fits, IsSound, Extends, Extends-refl, Extends-trans, Fits-Extends, All-lookup,
  new_template-Extends, new_template-seen, new_template-IsSound, mark-Extends, mark-IsSound,
  build-marked, path_of-build, AllNodes-build, end_binding-Extends, end_binding-IsSound,
  begin_binding-IsSound,
}

known_sink-inv :
    (v : Option String) (name : String)
    → known_sink v ≡ some name
    → (name ≡ "ntfy") ⊎ ((name ≡ "influx") ⊎ (name ≡ "index"))
unfolding known_sink
known_sink-inv none name h = cc
known_sink-inv (some s) name h =
    ground (arith, eq_iff s "ntfy", eq_iff s "influx", eq_iff s "index")

branch_members-size :
    (b : Json) (m : Members) → branch_members b ≡ some m → suc (size_members m) ≡ size b
unfolding branch_members size
branch_members-size (object m) m' h = elim (Bool-cases (count_members m == 2)) [
  | inl e ↦ ap (λ x. suc (size_members x)) (sym (some-eq m m' (sym (if_true _ _ e) ∙ h)))
  | inr e ↦ cc (sym (if_false (some m) none e) ∙ h)
]
branch_members-size null m' h = cc
branch_members-size (bool _) m' h = cc
branch_members-size (number _) m' h = cc
branch_members-size (string _) m' h = cc
branch_members-size (array _) m' h = cc

given-inv : (v : Option Json) (j : Json) → given v ≡ some j → v ≡ some j
unfolding given
given-inv none j h = h
given-inv (some null) j h = cc
given-inv (some (bool _)) j h = h
given-inv (some (number _)) j h = h
given-inv (some (string _)) j h = h
given-inv (some (array _)) j h = h
given-inv (some (object _)) j h = h

of_not : (b : Bool) → not b ≡ true → b ≡ false
of_not true h = cc
of_not false h = refl

module _ {F Pr : Type 0} ⦃fl : Float F⦄ where
  -- The compiler goes on from `s` to a sound state, and the tree fits what that state has registered.
  unfoldable pub IsMade : Compiler F Pr → Template F Pr × Compiler F Pr → Type 0
  IsMade s (t, s') = Extends s s' × IsSound s' × AllNodes (Fits s') t

  abbrev AreMade : Compiler F Pr → Templates F Pr × Compiler F Pr → Type 0
  AreMade s (ts, s') = Extends s s' × IsSound s' × AllKids (Fits s') ts

  abbrev AreBranches : Compiler F Pr → Branches F Pr × Compiler F Pr → Type 0
  AreBranches s (bs, s') = Extends s s' × IsSound s' × AllBranches (Fits s') bs

  compile_sink-Post :
      (v : Json) (path : String) (s : Compiler F Pr)
      → IsSound s
      → Post (IsMade s) (compile_sink v path s)
  unfolding compile_sink IsMade Fits IsWellSet AllNodes
  compile_sink-Post v path s h =
      or_fail-Post (known_sink (string_of (some v))) path unknown_sink ⟫ λ name e. returns (
        new_template-Extends path s,
        new_template-IsSound path s h,
        (
          known_sink-inv (string_of (some v)) name e,
          new_template-seen path s,
          λ e'. absurd (ground (arith, e')),
        ),
      )

  module _ (bindings : Members) where
    abbrev IsWithin : ℕ → ℕ → Compiler F Pr → Type 0
    IsWithin n a s = a + open_sizes s.in_flight bindings < n

    IsWithin-Extends :
        (n a : ℕ) (s s' : Compiler F Pr) → Extends s s' → IsWithin n a s → IsWithin n a s'
    IsWithin-Extends n a s s' h k = rw h.same_flight k

    -- A compiler of nodes that ends, and is sound, on what its fuel is enough for.
    unfoldable pub IsCorrect : ℕ → NodeCompiler F Pr → Type 0
    IsCorrect n rec =
        (j : Json) (path : String) (inside : Bool) (s : Compiler F Pr)
        → IsSound s
        → IsWithin n (size j) s
        → Post (IsMade s) (rec j path inside s)

    compile_items-Post :
        (n : ℕ) (rec : NodeCompiler F Pr)
        → IsCorrect n rec
        → (path : String) (inside : Bool) (k : ℕ) (js : Items) (s : Compiler F Pr) → IsSound s
        → IsWithin n (size_items js) s
        → Post (AreMade s) (compile_items rec path inside k js s)
    unfolding compile_items IsCorrect IsMade size AllNodes
    compile_items-Post n rec c path inside k no_items s h w = returns (Extends-refl s, h, tt)
    compile_items-Post n rec c path inside k (item j js) s h w =
        c j (path <> "/" <> itoa k) inside s h (omega arith) ⟫ λ (t, s1) (e1, h1, a1).
        compile_items-Post n rec c path inside (k + 1) js s1 h1
          (IsWithin-Extends n _ s s1 e1 (omega arith))
        ⟫ λ (ts, s2) (e2, h2, a2).
            returns (Extends-trans e1 e2, h2, (AllNodes-map (Fits-Extends e2) t a1, a2))

    compile_children-Post :
        (n a : ℕ) (rec : NodeCompiler F Pr)
        → IsCorrect n rec
        → (v : Option Json) (path : String) (inside : Bool) (s : Compiler F Pr)
        → ((j : Json) → v ≡ some j → size j ≤ a)
        → IsSound s
        → IsWithin n a s
        → Post (AreMade s) (compile_children rec v path inside s)
    unfolding compile_children size
    compile_children-Post n a rec c none path inside s small h w = throws
    compile_children-Post n a rec c (some null) path inside s small h w = throws
    compile_children-Post n a rec c (some (bool _)) path inside s small h w = throws
    compile_children-Post n a rec c (some (number _)) path inside s small h w = throws
    compile_children-Post n a rec c (some (string _)) path inside s small h w = throws
    compile_children-Post n a rec c (some (object _)) path inside s small h w = throws
    compile_children-Post n a rec c (some (array js)) path inside s small h w =
        compile_items-Post n rec c path inside 0 js s h (omega (arith, small (array js) refl))

    module _ (tc : Toolchain F Pr) where
      compile_op-Post :
          (n : ℕ) (rec : NodeCompiler F Pr)
          → IsCorrect n rec
          → (op : String) (m : Members) (path : String) (inside : Bool) (s : Compiler F Pr)
          → IsSound s
          → IsWithin n (size_members m) s
          → Post (IsMade s) (compile_op tc rec op m path inside s)
      unfolding compile_op IsMade Fits
      compile_op-Post n rec c op m path inside s h w =
          read_head-Post tc op m path inside ⟫ λ head good.
          let s1 = new_template path (mark head s) in
          let e1 = Extends-trans (mark-Extends head s) (new_template-Extends path (mark head s)) in
          let h1 = new_template-IsSound path (mark head s) (mark-IsSound head s h) in
          compile_children-Post n (size_members m) rec c (get "children" m) path
            (inside || str_eq op "coalesce") s1 (get-size "children" m) h1
            (IsWithin-Extends n _ s s1 e1 w)
          ⟫ λ (kids, s2) (e2, h2, a2). returns (
            Extends-trans e1 e2,
            h2,
            AllNodes-build (Fits s2) head path kids
                (
                  good path kids,
                  rw (path_of-build head path kids)
                      (e2.more_seen path (new_template-seen path (mark head s))),
                  λ e. e2.more_marked (
                      (new_template-Extends path (mark head s)).more_marked
                        (build-marked head path kids s e)),
                )
                a2,
          )

      compile_branches-Post :
          (n : ℕ) (rec : NodeCompiler F Pr)
          → IsCorrect n rec
          → (test path : String) (inside : Bool) (k : ℕ) (js : Items) (s : Compiler F Pr)
          → IsSound s
          → IsWithin n (size_items js) s
          → Post
              (λ r. AreBranches s r × (js ≢ no_items → r.0 ≢ no_branch))
              (compile_branches tc rec test path inside k js s)
      unfolding compile_branches IsCorrect IsMade size AllNodes
      compile_branches-Post n rec c test path inside k no_items s h w =
          returns ((Extends-refl s, h, tt), λ more. absurd (more refl))
      compile_branches-Post n rec c test path inside k (item b bs) s h w =
          let bpath = path <> "/branches/" <> itoa k in
          or_fail-Post (branch_members b) bpath branch_invalid ⟫ λ bm eb.
          or_fail-Post (get "threshold" bm) bpath branch_incomplete ⟫ λ thr et.
          or_fail-Post (get "stream" bm) bpath branch_incomplete ⟫ λ sub es.
          or_fail-Post (threshold_literal tc thr) bpath threshold_invalid ⟫ λ literal el.
          or_fail-Post (tc.compile_predicate (fill_braces literal test) inside) bpath expr_invalid
          ⟫ λ prog ep.
              c sub bpath inside s h
                (omega (arith, get-size "stream" bm sub es, branch_members-size b bm eb))
              ⟫ λ (t, s1) (e1, h1, a1).
                  compile_branches-Post n rec c test path inside (k + 1) bs s1 h1
                    (IsWithin-Extends n _ s s1 e1 (omega arith))
                  ⟫ λ (rest, s2) ((e2, h2, a2), r2). returns (
                    (Extends-trans e1 e2, h2, (AllNodes-map (Fits-Extends e2) t a1, a2)),
                    λ more e. cc,
                  )

      compile_splitp-Post :
          (n : ℕ) (rec : NodeCompiler F Pr)
          → IsCorrect n rec
          → (m : Members) (path : String) (inside : Bool) (s : Compiler F Pr) → IsSound s
          → IsWithin n (size_members m) s
          → Post (IsMade s) (compile_splitp tc rec m path inside s)
      unfolding compile_splitp IsCorrect IsMade Fits IsWellSet AllNodes size
      compile_splitp-Post n rec c m path inside s h w =
          or_fail-Post (test_of (string_of (get "test" m))) path test_invalid ⟫ λ test et.
          or_fail-Post (some_items (get "branches" m)) path no_branches ⟫ λ branches eb.
          or_fail-Post (given (get "otherwise" m)) path no_otherwise ⟫ λ otherwise eo.
          require-Post (is_absent (get "children" m)) path has_children ⟫ λ u ec.
          let s1 = new_template path s in
          let e1 = new_template-Extends path s in
          let (found, more) = some_items_inv _ branches eb in
          compile_branches-Post n rec c test path inside 0 branches s1
            (new_template-IsSound path s h)
            (IsWithin-Extends n _ s s1 e1
              (omega (arith, get-size "branches" m (array branches) found)))
          ⟫ λ (bs, s2) ((e2, h2, a2), some_branch).
              c otherwise (path <> "/otherwise") inside s2 h2 (
                IsWithin-Extends n _ s s2 (Extends-trans e1 e2)
                  (omega (arith, get-size "otherwise" m otherwise (given-inv _ otherwise eo))))
              ⟫ λ (o, s3) (e3, h3, a3). returns (
                Extends-trans e1 (Extends-trans e2 e3),
                h3,
                (
                  (
                    some_branch more,
                    e3.more_seen path (e2.more_seen path (new_template-seen path s)),
                    λ e. absurd (ground (arith, e)),
                  ),
                  AllBranches-map (Fits-Extends e3) bs a2,
                  a3,
                ),
              )

      begun :
          (n : ℕ) (name : String) (s : Compiler F Pr) (raw : Json)
          → get name bindings ≡ some raw
          → s.in_flight name ≡ false
          → open_sizes s.in_flight bindings ≤ n
          → IsWithin n (size raw) (begin_binding name s)
      unfolding begin_binding
      begun n name s raw e idle w =
          omega (arith, open_sizes-assign name s.in_flight bindings raw e idle)

      found_or_compiled-Post :
          (n : ℕ) (rec : NodeCompiler F Pr)
          → IsCorrect n rec
          → (name : String) (inside : Bool) (s : Compiler F Pr) (o : Option (Template F Pr))
          → lookup name s.compiled ≡ o
          → IsSound s
          → open_sizes s.in_flight bindings ≤ n
          → Post (IsMade s) (found_or_compiled tc bindings rec name inside s o)
      unfolding found_or_compiled IsCorrect IsMade
      found_or_compiled-Post n rec c name inside s (some t) e h w =
          returns
            (Extends-refl s, h, All-lookup (AllNodes (Fits s)) name s.compiled t e h.bindings_fit)
      found_or_compiled-Post n rec c name inside s none e h w =
          or_fail-Post (get name bindings) name names_no_binding ⟫ λ raw er.
          require-Post (not (s.in_flight name)) name self_reference ⟫ λ u free.
          let idle = of_not (s.in_flight name) free in
          c raw ("bindings/" <> name) inside (begin_binding name s) (begin_binding-IsSound name s h)
            (begun n name s raw er idle w)
          ⟫ λ (t, s') (e', h', a').
              let (h'', a'') = end_binding-IsSound name t s' h' a' in
              returns (end_binding-Extends name t s s' idle e', h'', a'')

      pub compile_binding-Post :
          (n : ℕ) (rec : NodeCompiler F Pr)
          → IsCorrect n rec
          → (name : String) (inside : Bool) (s : Compiler F Pr) → IsSound s
          → open_sizes s.in_flight bindings ≤ n
          → Post (IsMade s) (compile_binding tc bindings rec name inside s)
      unfolding compile_binding
      compile_binding-Post n rec c name inside s h w =
          found_or_compiled-Post n rec c name inside s (lookup name s.compiled) refl h w

      compile_form-Post :
          (n : ℕ) (rec : NodeCompiler F Pr)
          → IsCorrect n rec
          → (ref sink : Option Json) (m : Members) (path : String) (inside : Bool)
            (s : Compiler F Pr)
          → IsSound s
          → IsWithin n (size_members m) s
          → Post (IsMade s) (compile_form tc bindings rec ref sink m path inside s)
      unfolding compile_form
      compile_form-Post n rec c (some ref) sink m path inside s h w =
          or_fail-Post (filled (some ref)) path ref_not_name ⟫ λ name en.
          compile_binding-Post n rec c name inside s h (omega arith)
      compile_form-Post n rec c none (some v) m path inside s h w = compile_sink-Post v path s h
      compile_form-Post n rec c none none m path inside s h w =
          or_fail-Post (filled (get "op" m)) path no_op ⟫ λ op eo.
          if_Post (str_eq op "splitp") (compile_splitp-Post n rec c m path inside s h w)
            (compile_op-Post n rec c op m path inside s h w)

      -- Fuel above the sizes of the node and of the bindings that are not being compiled is enough.
      pub node-IsCorrect : (n : ℕ) → IsCorrect n (node tc bindings n)
      unfolding node compile_json IsCorrect size
      node-IsCorrect zero j path inside s h w = absurd (omega arith)
      node-IsCorrect (suc n) null path inside s h w = throws
      node-IsCorrect (suc n) (bool _) path inside s h w = throws
      node-IsCorrect (suc n) (number _) path inside s h w = throws
      node-IsCorrect (suc n) (string _) path inside s h w = throws
      node-IsCorrect (suc n) (array _) path inside s h w = throws
      node-IsCorrect (suc n) (object m) path inside s h w =
          compile_form-Post n (node tc bindings n) (node-IsCorrect n) (get "ref" m) (get "sink" m) m
            path inside s h (omega arith)
