-- ===== src/Rule/Compile/Accepted.antt =====
-- compile.go: what compileDoc answers: it ends, and the rules that it accepts are sound.
use riemann_go.Base.{
  ℕ, suc, ◌+◌, ◌≤◌, ◌≡◌, ◌≢◌, refl, sym, ◌∙◌, true, false, ◌||◌, not, List, [], ◌∷◌, String, str_eq,
  eq_iff, arith,
}
use riemann_go.Base.Float.{Float}
use riemann_go.Base.Json.{Json, Members, size}
use riemann_go.Event.{sort_strings, ok, err}
use riemann_go.Rule.{Template, Compiled, Options}
use riemann_go.Rule.Compile.Defs.{Toolchain, Compiler, out_of_fuel, needs_global}
use riemann_go.Rule.Compile.Post.{
  Post, returns, ◌⟫◌, require-Post, of_ok, weaken, Post-ne-out_of_fuel,
}
use riemann_go.Rule.Compile.Nodes.{node}
use riemann_go.Rule.Compile.Documents.{
  new_compiler, binding_names, binding_sizes, compile_bindings, compile_tree, compile_doc,
}
use riemann_go.Rule.Compile.Shape.{path_of, is_coalesce, AllNodes, AllNodes-map, IsWellSet}
use riemann_go.Rule.Compile.Measure.{open_sizes, open_sizes-none}
use riemann_go.Rule.Compile.Registry.{
  holds, IsDistinct, Fits, IsSound, Extends, Extends-refl, Extends-trans, Fits-Extends,
}
use riemann_go.Rule.Compile.Sound.{IsMade, IsCorrect, node-IsCorrect, compile_binding-Post}
use riemann_go.Rule.Compile.Identity.{IsSettled, read_settings-Post}
use riemann_go.Rule.Compile.Sorting.{IsAscending, holds-sort, sort_strings-IsAscending}

module _ {F Pr : Type 0} ⦃fl : Float F⦄ where
  new_compiler-IsSound : IsSound (new_compiler {F = F} {Pr = Pr})
  unfolding new_compiler holds IsDistinct
  new_compiler-IsSound = record { bindings_fit = tt; registered = λ p. refl; distinct = tt }

  Fits-IsWellSet : (s : Compiler F Pr) (t : Template F Pr) → Fits s t → IsWellSet t
  unfolding Fits
  Fits-IsWellSet s t f = f.0

  Fits-fleet_wide :
      (s : Compiler F Pr) (partition : String)
      → (not s.has_coalesce || str_eq partition "global") ≡ true
      → (t : Template F Pr) → Fits s t
      → is_coalesce t ≡ true
      → partition ≡ "global"
  unfolding Fits
  Fits-fleet_wide s partition fleet t f e = ground (arith, f.2 e, eq_iff partition "global")

  Fits-known :
      (s : Compiler F Pr)
      → IsSound s
      → (t : Template F Pr) → Fits s t
      → holds (path_of t) (sort_strings s.paths) ≡ true
  unfolding Fits
  Fits-known s h t f = holds-sort (path_of t) s.paths ∙ sym (h.registered (path_of t)) ∙ f.1

module _ {F Pr : Type 0} ⦃fl : Float F⦄ (tc : Toolchain F Pr) where
  compile_bindings-Post :
      (n : ℕ) (bindings : Members) (names : List String) (s : Compiler F Pr)
      → IsSound s
      → open_sizes s.in_flight bindings ≤ n
      → Post (λ s'. Extends s s' × IsSound s') (compile_bindings tc n bindings names s)
  unfolding compile_bindings IsMade
  compile_bindings-Post n bindings [] s h w = returns (Extends-refl s, h)
  compile_bindings-Post n bindings (name ∷ names) s h w =
      compile_binding-Post bindings tc n (node tc bindings n) (node-IsCorrect bindings tc n) name
        false s h w
      ⟫ λ (t, s1) (e1, h1, a1).
          weaken (λ s2 (e2, h2). (Extends-trans e1 e2, h2))
            (compile_bindings-Post n bindings names s1 h1 (rw e1.same_flight w))

  pub compile_tree-Post :
      (stream : Json) (bindings : Members)
      → Post (λ r. IsSound r.1 × AllNodes (Fits r.1) r.0) (compile_tree tc stream bindings)
  unfolding compile_tree new_compiler IsCorrect IsMade
  compile_tree-Post stream bindings =
      let n = suc (size stream + binding_sizes bindings) in
      node-IsCorrect bindings tc n stream "stream" false new_compiler new_compiler-IsSound
        (omega (arith, open_sizes-none bindings))
      ⟫ λ (root, s) (e, h, a).
          compile_bindings-Post n bindings (sort_strings (binding_names bindings)) s h
            (rw e.same_flight (omega (arith, open_sizes-none bindings)))
          ⟫ λ s' (e', h'). returns (h', AllNodes-map (Fits-Extends e') root a)

  -- What holds of every rule that is accepted.
  record IsAccepted (doc : Members) (path_id : String) (c : Compiled F Pr) : Type 0 where
    settled : IsSettled doc path_id c.id c.owner c.partition
    settings_fit : AllNodes IsWellSet c.root
    fleet_wide : AllNodes (λ t. is_coalesce t ≡ true → c.partition ≡ "global") c.root
    paths_known : AllNodes (λ t. holds (path_of t) c.paths ≡ true) c.root
    paths_sorted : IsAscending c.paths

  compile_doc-Post :
      (doc : Members) (path_id : String) (opts : Options)
      → Post (λ r. IsAccepted doc path_id r.0) (compile_doc tc doc path_id opts)
  unfolding compile_doc
  compile_doc-Post doc path_id opts = read_settings-Post tc doc path_id ⟫ λ c settled.
      compile_tree-Post c.stream c.bindings ⟫ λ (root, s) (h, a).
      require-Post (not s.has_coalesce || str_eq c.partition "global") c.id needs_global
      ⟫ λ u fleet. returns (record {
        settled = settled;
        settings_fit = AllNodes-map (Fits-IsWellSet s) root a;
        fleet_wide = AllNodes-map (Fits-fleet_wide s c.partition fleet) root a;
        paths_known = AllNodes-map (Fits-known s h) root a;
        paths_sorted = sort_strings-IsAscending s.paths h.distinct;
      })

  -- The compiler never runs out of fuel, whatever the document is, also where bindings refer to each
  -- other in a circle.
  pub compile_doc-ends :
      (doc : Members) (path_id : String) (opts : Options)
      → compile_doc tc doc path_id opts ≢ err out_of_fuel
  compile_doc-ends doc path_id opts = Post-ne-out_of_fuel (compile_doc-Post doc path_id opts)

  module _ (doc : Members) (path_id : String) (opts : Options) (c : Compiled F Pr) (norm : Members)
      (accepted : compile_doc tc doc path_id opts ≡ ok (c, norm)) where
    of_ok-IsAccepted : IsAccepted doc path_id c
    of_ok-IsAccepted = of_ok (rw accepted at (compile_doc-Post doc path_id opts))

    -- In an accepted rule the settings of every node of the tree fit its op: a sink is ntfy, influx or
    -- index; by has fields, all of them fields of events, and is freeable exactly when each is host or
    -- service; the limit of throttle is 1 at least, and its window and the duration of stable are above
    -- 0; splitp has a branch; set sets fields of events, and one at least.
    pub compile_doc-IsWellSet : AllNodes IsWellSet c.root
    compile_doc-IsWellSet = of_ok-IsAccepted.settings_fit

    -- A rule that is accepted with a coalesce at any node of its tree has the partition "global".
    pub compile_doc-fleet_wide :
        AllNodes (λ t. is_coalesce t ≡ true → c.partition ≡ "global") c.root
    compile_doc-fleet_wide = of_ok-IsAccepted.fleet_wide

    -- The paths of an accepted rule stand in strictly ascending order, so that none stands twice, and
    -- the path of every node of its tree is one of them.
    pub compile_doc-paths :
        IsAscending c.paths × AllNodes (λ t. holds (path_of t) c.paths ≡ true) c.root
    compile_doc-paths = (of_ok-IsAccepted.paths_sorted, of_ok-IsAccepted.paths_known)
