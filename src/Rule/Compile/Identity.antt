-- ===== src/Rule/Compile/Identity.antt =====
-- compile.go: what compileDoc reads before it compiles the tree: the proofs.
use riemann_go.Base.{
  ◌≡◌, ◌≢◌, ◌⊎◌, refl, sym, ap, ◌∙◌, some-eq, inl, inr, Option-cases, Bool, false, ◌||◌, Option,
  none, some, String, str_eq, eq_iff, arith,
}
use riemann_go.Base.Float.{Float}
use riemann_go.Base.Json.{Json, null, bool, number, string, array, object, Members, get}
use riemann_go.Event.{default_to}
use riemann_go.Rule.Compile.Defs.{
  Toolchain, no_owner, no_match, match_invalid, expires_at_not_number, no_stream,
}
use riemann_go.Rule.Compile.Post.{Post, returns, throws, ◌⟫◌, or_fail-Post, test_Post, both_Post}
use riemann_go.Rule.Compile.Heads.{string_of, filled, to_float}
use riemann_go.Rule.Compile.Nodes.{given}
use riemann_go.Rule.Compile.Documents.{
  Settings, checked_id, read_id, is_partition, read_partition, read_enabled, read_bindings,
  read_expiry, read_settings,
}

-- The id, the owner and the partition of a rule are those of its document. An id that the document lacks
-- is that of the path, and a partition that it lacks is "host".
pub record IsSettled (doc : Members) (path_id id owner partition : String) : Type 0 where
  pub id_given : id ≢ ""
  pub id_of_path : path_id ≢ "" → id ≡ path_id
  pub id_of_doc :
      (get "id" doc ≡ some (string id))
      ⊎ ((id ≡ path_id) × ((s : String) → get "id" doc ≡ some (string s) → s ≡ ""))
  pub owner_given : owner ≢ ""
  pub owner_of_doc : get "owner" doc ≡ some (string owner)
  pub partition_known :
      (partition ≡ "host") ⊎ ((partition ≡ "host,service") ⊎ (partition ≡ "global"))
  pub partition_of_doc :
      (get "partition" doc ≡ some (string partition))
      ⊎ ((get "partition" doc ≡ none) × (partition ≡ "host"))

checked_id-Post :
    (id path_id : String)
    → Post
        (λ r. (r ≢ "") × (path_id ≢ "" → r ≡ path_id) × ((r ≡ id) ⊎ ((id ≡ "") × (r ≡ path_id))))
        (checked_id id path_id)
unfolding checked_id
checked_id-Post id path_id =
    test_Post (str_eq id "")
      (λ e.
        test_Post (str_eq path_id "") (λ e'. throws)
          (λ e'. returns (
            (λ h. ground (arith, eq_iff path_id "", h)),
            (λ h. refl),
            inr ((eq_iff id "").0 e, refl),
          )))
      (λ e.
        test_Post (str_eq path_id "" || str_eq id path_id)
          (λ e'. returns (
            (λ h. ground (arith, eq_iff id "", h)),
            (λ h. ground (arith, h, eq_iff path_id "", eq_iff id path_id)),
            inl refl,
          ))
          (λ e'. throws))

string_of-some : (v : Option Json) (s : String) → string_of v ≡ some s → v ≡ some (string s)
unfolding string_of
string_of-some none s h = cc
string_of-some (some null) s h = cc
string_of-some (some (bool _)) s h = cc
string_of-some (some (number _)) s h = cc
string_of-some (some (array _)) s h = cc
string_of-some (some (object _)) s h = cc
string_of-some (some (string t)) s h = ap (λ u. some (string u)) (some-eq t s h)

id_source :
    (v : Option Json) (path_id r : String)
    → r ≢ ""
    → (r ≡ default_to "" (string_of v)) ⊎ ((default_to "" (string_of v) ≡ "") × (r ≡ path_id))
    → (v ≡ some (string r)) ⊎ ((r ≡ path_id) × ((s : String) → v ≡ some (string s) → s ≡ ""))
unfolding string_of
id_source v path_id r given (inl e) = elim (Option-cases (string_of v)) [
  | inl n ↦ absurd (given (e ∙ ap (default_to "") n))
  | inr (s, n) ↦
      inl (string_of-some v s n ∙ ap (λ u. some (string u)) (sym (e ∙ ap (default_to "") n)))
]
id_source v path_id r given (inr (e, p)) =
    inr (p, λ s h. sym (ap (λ w. default_to "" (string_of w)) h) ∙ e)

filled-some : (v : Option Json) (s : String) → filled v ≡ some s → v ≡ some (string s)
unfolding filled
filled-some v s h = elim (Option-cases (string_of v)) [
  | inl e ↦ absurd (ground (arith, h, e))
  | inr (t, e) ↦
      let same : t ≡ s = ground (arith, h, e) in
      string_of-some v t e ∙ ap (λ u. some (string u)) same
]

read_partition-source :
    (id : String) (v : Option Json)
    → Post (λ r. (v ≡ some (string r)) ⊎ ((v ≡ none) × (r ≡ "host"))) (read_partition id v)
unfolding read_partition
read_partition-source id none = returns (inr (refl, refl))
read_partition-source id (some null) = throws
read_partition-source id (some (bool _)) = throws
read_partition-source id (some (number _)) = throws
read_partition-source id (some (array _)) = throws
read_partition-source id (some (object _)) = throws
read_partition-source id (some (string s)) =
    test_Post (is_partition s) (λ e. returns (inl refl)) (λ e. throws)

filled-ne : (v : Option Json) (s : String) → filled v ≡ some s → s ≢ ""
unfolding filled
filled-ne v s h e = elim (Option-cases (string_of v)) [
  | inl e' ↦ absurd (ground (arith, h, e'))
  | inr (t, e') ↦ absurd (ground (arith, h, e, e', eq_iff t ""))
]

pub read_partition-Post :
    (id : String) (v : Option Json)
    → Post (λ r. (r ≡ "host") ⊎ ((r ≡ "host,service") ⊎ (r ≡ "global"))) (read_partition id v)
unfolding read_partition
read_partition-Post id none = returns (inl refl)
read_partition-Post id (some null) = throws
read_partition-Post id (some (bool _)) = throws
read_partition-Post id (some (number _)) = throws
read_partition-Post id (some (array _)) = throws
read_partition-Post id (some (object _)) = throws
read_partition-Post id (some (string s)) =
    test_Post (is_partition s)
      (λ e. returns (ground (arith, eq_iff s "host", eq_iff s "host,service", eq_iff s "global")))
      (λ e. throws)

any_enabled : (id : String) (v : Option Json) → Post (λ (b : Bool). Unit {0}) (read_enabled id v)
unfolding read_enabled
any_enabled id none = returns tt
any_enabled id (some (bool b)) = returns tt
any_enabled id (some null) = throws
any_enabled id (some (number _)) = throws
any_enabled id (some (string _)) = throws
any_enabled id (some (array _)) = throws
any_enabled id (some (object _)) = throws

any_bindings :
    (id : String) (v : Option Json) → Post (λ (m : Members). Unit {0}) (read_bindings id v)
unfolding read_bindings
any_bindings id none = returns tt
any_bindings id (some (bool b)) = throws
any_bindings id (some null) = returns tt
any_bindings id (some (number _)) = throws
any_bindings id (some (string _)) = throws
any_bindings id (some (array _)) = throws
any_bindings id (some (object _)) = returns tt

module _ {F Pr : Type 0} ⦃fl : Float F⦄ (tc : Toolchain F Pr) where
  any_expiry :
      (id : String) (v : Option Json) → Post (λ (r : F × Bool). Unit {0}) (read_expiry tc id v)
  unfolding read_expiry
  any_expiry id none = returns tt
  any_expiry id (some v) =
      or_fail-Post (to_float tc (some v)) id expires_at_not_number ⟫ λ x e. returns tt

  pub read_settings-Post :
      (doc : Members) (path_id : String)
      → Post
          (λ (c : Settings F Pr). IsSettled doc path_id c.id c.owner c.partition)
          (read_settings tc doc path_id)
  unfolding read_settings read_id
  read_settings-Post doc path_id =
      checked_id-Post (default_to "" (string_of (get "id" doc))) path_id ⟫ λ id hi.
      or_fail-Post (filled (get "owner" doc)) id no_owner ⟫ λ owner ho.
      both_Post (read_partition-Post id (get "partition" doc))
        (read_partition-source id (get "partition" doc))
      ⟫ λ partition hp. or_fail-Post (filled (get "match" doc)) id no_match ⟫ λ match hm.
          or_fail-Post (tc.compile_predicate match false) id match_invalid ⟫ λ prog hg.
          any_enabled id (get "enabled" doc) ⟫ λ enabled he.
          any_expiry id (given (get "expires_at" doc)) ⟫ λ (expires_at, has_expiry) hx.
          or_fail-Post (given (get "stream" doc)) id no_stream ⟫ λ stream hs.
          any_bindings id (get "bindings" doc) ⟫ λ bindings hb. returns (record {
            id_given = hi.0;
            id_of_path = hi.1;
            id_of_doc = id_source (get "id" doc) path_id id hi.0 hi.2;
            owner_given = filled-ne _ owner ho;
            owner_of_doc = filled-some (get "owner" doc) owner ho;
            partition_known = hp.0;
            partition_of_doc = hp.1;
          })
