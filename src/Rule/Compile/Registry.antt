-- ===== src/Rule/Compile/Registry.antt =====
-- compile.go: what the compiler's state keeps true, and what newTemplate, the mark of a coalesce and
-- the end of a binding do to it.
use riemann_go.Base.{
  ◌≡◌, refl, sym, ◌∙◌, ap, subst, inl, inr, Bool, true, false, ◌||◌, some, List, [], ◌∷◌, ◌++◌,
  String, str_eq, eq_iff, All, arith, Bool-cases,
}
use riemann_go.Base.Float.{Float}
use riemann_go.Base.Assoc.{lookup, insert, string_eq, Assoc}
use riemann_go.Rule.{Template, Templates}
use riemann_go.Rule.Compile.Defs.{Compiler, assign}
use riemann_go.Rule.Compile.Heads.{
  Head, where_head, by_head, changed_state_head, throttle_head, set_head, coalesce_head, ddt_head,
  stable_head,
}
use riemann_go.Rule.Compile.Nodes.{new_template, begin_binding, end_binding, mark, build}
use riemann_go.Rule.Compile.Shape.{path_of, is_coalesce, AllNodes, AllKids, AllNodes-map, IsWellSet}
use riemann_go.Rule.Compile.Measure.{assign-assign}

-- Whether `s` is in the list
unfoldable pub holds : String → List String → Bool
holds s [] = false
holds s (t ∷ ts) = str_eq t s || holds s ts

-- No text stands twice.
unfoldable pub IsDistinct : List String → Type 0
IsDistinct [] = Unit
IsDistinct (s ∷ ss) = (holds s ss ≡ false) × IsDistinct ss

holds-append :
    (s t : String) (ss : List String) → holds s (ss ++ t ∷ []) ≡ (str_eq t s || holds s ss)
unfolding holds
holds-append s t [] = refl
holds-append s t (x ∷ ss) = ground (arith, holds-append s t ss)

IsDistinct-append :
    (t : String) (ss : List String) → holds t ss ≡ false → IsDistinct ss → IsDistinct (ss ++ t ∷ [])
unfolding IsDistinct holds
IsDistinct-append t [] h d = (refl, tt)
IsDistinct-append t (x ∷ ss) h d = (
  ground (arith, holds-append x t ss, eq_iff x t, eq_iff t x),
  IsDistinct-append t ss (ground arith) d.1,
)

module _ {F Pr : Type 0} ⦃fl : Float F⦄ where
  -- A node that is compiled, by what the compiler has registered and marked.
  unfoldable pub Fits : Compiler F Pr → Template F Pr → Type 0
  Fits s t =
      IsWellSet t × (s.seen (path_of t) ≡ true) × (is_coalesce t ≡ true → s.has_coalesce ≡ true)

  pub record IsSound (s : Compiler F Pr) : Type 0 where
    pub bindings_fit : All (λ e. AllNodes (Fits s) e.1) s.compiled
    pub registered : (path : String) → s.seen path ≡ holds path s.paths
    pub distinct : IsDistinct s.paths

  pub record Extends (s s' : Compiler F Pr) : Type 0 where
    pub same_flight : s'.in_flight ≡ s.in_flight
    pub more_seen : (path : String) → s.seen path ≡ true → s'.seen path ≡ true
    pub more_marked : s.has_coalesce ≡ true → s'.has_coalesce ≡ true

  pub Extends-refl : (s : Compiler F Pr) → Extends s s
  Extends-refl s = record { same_flight = refl; more_seen = λ p e. e; more_marked = λ e. e }

  pub Extends-trans : {s s' s'' : Compiler F Pr} → Extends s s' → Extends s' s'' → Extends s s''
  Extends-trans h k = record {
    same_flight = k.same_flight ∙ h.same_flight;
    more_seen = λ p e. k.more_seen p (h.more_seen p e);
    more_marked = λ e. k.more_marked (h.more_marked e);
  }

  pub Fits-Extends :
      {s s' : Compiler F Pr} → Extends s s' → (t : Template F Pr) → Fits s t → Fits s' t
  unfolding Fits
  Fits-Extends h t f = (f.0, h.more_seen _ f.1, λ e. h.more_marked (f.2 e))

  pub bindings-Extends :
      {s s' : Compiler F Pr}
      → Extends s s'
      → (m : Assoc String (Template F Pr)) → All (λ e. AllNodes (Fits s) e.1) m
      → All (λ e. AllNodes (Fits s') e.1) m
  bindings-Extends h [] a = tt
  bindings-Extends h ((k, t) ∷ m) a =
      (AllNodes-map (Fits-Extends h) t a.0, bindings-Extends h m a.1)

  pub All-lookup :
      (P : Template F Pr → Type 0) (k : String) (m : Assoc String (Template F Pr))
      (t : Template F Pr)
      → lookup k m ≡ some t
      → All (λ e. P e.1) m
      → P t
  unfolding lookup
  All-lookup P k [] t h a = cc
  All-lookup P k ((j, u) ∷ m) t h a = elim (Bool-cases (str_eq j k)) [
    | inl e ↦ subst P (ground (arith, e, h)) a.0
    | inr e ↦ All-lookup P k m t (ground (arith, e, h)) a.1
  ]

  pub All-insert :
      (P : Template F Pr → Type 0) (k : String) (t : Template F Pr)
      (m : Assoc String (Template F Pr))
      → P t
      → All (λ e. P e.1) m
      → All (λ e. P e.1) (insert k t m)
  unfolding insert
  All-insert P k t [] h a = (h, tt)
  All-insert P k t ((j, u) ∷ m) h a = elim (Bool-cases (str_eq j k)) [
    | inl e ↦ rw e (h, a.1)
    | inr e ↦ rw e (a.0, All-insert P k t m h a.1)
  ]

  pub new_template-Extends : (path : String) (s : Compiler F Pr) → Extends s (new_template path s)
  unfolding new_template assign
  new_template-Extends path s = record {
    same_flight = refl;
    more_seen = λ p e. ground (arith, e);
    more_marked = λ e. e;
  }

  pub new_template-seen :
      (path : String) (s : Compiler F Pr) → (new_template path s).seen path ≡ true
  unfolding new_template assign
  new_template-seen path s = ground (arith, eq_iff path path)

  pub new_template-IsSound :
      (path : String) (s : Compiler F Pr) → IsSound s → IsSound (new_template path s)
  unfolding new_template assign
  new_template-IsSound path s h = record {
    bindings_fit = bindings-Extends (new_template-Extends path s) s.compiled h.bindings_fit;
    registered = λ p. elim (Bool-cases (s.seen path)) [
      | inl e ↦ ground (arith, e, h.registered p, eq_iff path p)
      | inr e ↦ ground (arith, e, h.registered p, holds-append p path s.paths)
    ];
    distinct = elim (Bool-cases (s.seen path)) [
      | inl e ↦ rw e h.distinct
      | inr e ↦ rw e (IsDistinct-append path s.paths (sym (h.registered path) ∙ e) h.distinct)
    ];
  }

  pub mark-Extends : (head : Head F Pr) (s : Compiler F Pr) → Extends s (mark head s)
  unfolding mark
  mark-Extends coalesce_head s = record {
    same_flight = refl;
    more_seen = λ p e. e;
    more_marked = λ e. refl;
  }
  mark-Extends (where_head prog) s = Extends-refl s
  mark-Extends (by_head names freeable) s = Extends-refl s
  mark-Extends (changed_state_head initial) s = Extends-refl s
  mark-Extends (throttle_head limit window) s = Extends-refl s
  mark-Extends (set_head programs) s = Extends-refl s
  mark-Extends ddt_head s = Extends-refl s
  mark-Extends (stable_head duration field) s = Extends-refl s

  -- A mark leaves the registry as it is.
  mark-same :
      (head : Head F Pr) (s : Compiler F Pr)
      → ((mark head s).compiled ≡ s.compiled)
        × ((mark head s).seen ≡ s.seen)
        × ((mark head s).paths ≡ s.paths)
  unfolding mark
  mark-same coalesce_head s = (refl, refl, refl)
  mark-same (where_head prog) s = (refl, refl, refl)
  mark-same (by_head names freeable) s = (refl, refl, refl)
  mark-same (changed_state_head initial) s = (refl, refl, refl)
  mark-same (throttle_head limit window) s = (refl, refl, refl)
  mark-same (set_head programs) s = (refl, refl, refl)
  mark-same ddt_head s = (refl, refl, refl)
  mark-same (stable_head duration field) s = (refl, refl, refl)

  pub mark-IsSound : (head : Head F Pr) (s : Compiler F Pr) → IsSound s → IsSound (mark head s)
  mark-IsSound head s h = record {
    bindings_fit =
        subst (All (λ e. AllNodes (Fits (mark head s)) e.1)) (sym (mark-same head s).0)
          (bindings-Extends (mark-Extends head s) s.compiled h.bindings_fit);
    registered = λ p. rw ((mark-same head s).1, (mark-same head s).2) (h.registered p);
    distinct = rw (mark-same head s).2 h.distinct;
  }

  pub build-marked :
      (head : Head F Pr) (path : String) (kids : Templates F Pr) (s : Compiler F Pr)
      → is_coalesce (build head path kids) ≡ true
      → (mark head s).has_coalesce ≡ true
  unfolding mark build
  build-marked coalesce_head path kids s h = refl
  build-marked (where_head prog) path kids s h = cc
  build-marked (by_head names freeable) path kids s h = cc
  build-marked (changed_state_head initial) path kids s h = cc
  build-marked (throttle_head limit window) path kids s h = cc
  build-marked (set_head programs) path kids s h = cc
  build-marked ddt_head path kids s h = cc
  build-marked (stable_head duration field) path kids s h = cc

  pub path_of-build :
      (head : Head F Pr) (path : String) (kids : Templates F Pr)
      → path_of (build head path kids) ≡ path
  unfolding build
  path_of-build coalesce_head path kids = refl
  path_of-build (where_head prog) path kids = refl
  path_of-build (by_head names freeable) path kids = refl
  path_of-build (changed_state_head initial) path kids = refl
  path_of-build (throttle_head limit window) path kids = refl
  path_of-build (set_head programs) path kids = refl
  path_of-build ddt_head path kids = refl
  path_of-build (stable_head duration field) path kids = refl

  pub AllNodes-build :
      (P : Template F Pr → Type 0) (head : Head F Pr) (path : String) (kids : Templates F Pr)
      → P (build head path kids)
      → AllKids P kids
      → AllNodes P (build head path kids)
  unfolding build AllNodes
  AllNodes-build P coalesce_head path kids h k = (h, k)
  AllNodes-build P (where_head prog) path kids h k = (h, k)
  AllNodes-build P (by_head names freeable) path kids h k = (h, k)
  AllNodes-build P (changed_state_head initial) path kids h k = (h, k)
  AllNodes-build P (throttle_head limit window) path kids h k = (h, k)
  AllNodes-build P (set_head programs) path kids h k = (h, k)
  AllNodes-build P ddt_head path kids h k = (h, k)
  AllNodes-build P (stable_head duration field) path kids h k = (h, k)

  -- A binding that is compiled is put with the others, and is not in flight any more.
  pub end_binding-Extends :
      (name : String) (t : Template F Pr) (s s' : Compiler F Pr)
      → s.in_flight name ≡ false
      → Extends (begin_binding name s) s'
      → Extends s (end_binding name t s')
  unfolding begin_binding end_binding
  end_binding-Extends name t s s' free h = record {
    same_flight = ap (assign name false) h.same_flight ∙ assign-assign name s.in_flight free;
    more_seen = h.more_seen;
    more_marked = h.more_marked;
  }

  pub end_binding-IsSound :
      (name : String) (t : Template F Pr) (s : Compiler F Pr)
      → IsSound s
      → AllNodes (Fits s) t
      → IsSound (end_binding name t s) × AllNodes (Fits (end_binding name t s)) t
  unfolding end_binding Fits
  end_binding-IsSound name t s h a = (
    record {
      bindings_fit = All-insert (AllNodes (Fits s)) name t s.compiled a h.bindings_fit;
      registered = h.registered;
      distinct = h.distinct;
    },
    a,
  )

  pub begin_binding-IsSound :
      (name : String) (s : Compiler F Pr) → IsSound s → IsSound (begin_binding name s)
  unfolding begin_binding Fits
  begin_binding-IsSound name s h = record {
    bindings_fit = h.bindings_fit;
    registered = h.registered;
    distinct = h.distinct;
  }
