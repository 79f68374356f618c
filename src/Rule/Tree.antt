-- ===== src/Rule/Tree.antt =====
-- compile.go: Options, Compiled and Template; internal/exprs/exprs.go: Bool and Value.
-- The fields of a Template that its op does not use are left out: one constructor for each op. The
-- counters of a template are in the runtime, by the rule's id and version and the template's path.
use riemann_go.Base.{ℕ, Bool, false, Option, none, some, List, String}
use riemann_go.Base.Assoc.{Assoc}
use riemann_go.Event.{Value, nil, bool, EnvEntry}

-- expr-lang's virtual machine and fmt.Sprint: `run` answers none on an evaluation error.
pub record Vm (F Pr : Type 0) : Type 0 where
  pub run : Pr → Assoc String (EnvEntry F) → Option (Value F)
  pub sprint : Value F → String

truth : {F : Type 0} → Option (Value F) → Bool
truth (some (bool b)) = b
truth _ = false

or_nil : {F : Type 0} → Option (Value F) → Value F
or_nil none = nil
or_nil (some v) = v

module _ {F Pr : Type 0} ⦃vm : Vm F Pr⦄ where
  -- Program.Bool: an error, or a value that is no boolean, reads as false.
  unfoldable pub bool_of : Pr → Assoc String (EnvEntry F) → Bool
  unfolding truth
  bool_of p env = truth (vm.run p env)

  -- Program.Value: an error reads as nil.
  unfoldable pub value_of : Pr → Assoc String (EnvEntry F) → Value F
  unfolding or_nil
  value_of p env = or_nil (vm.run p env)

mutual
  pub data Template (F Pr : Type 0) : Type 0 where
    sink_node : String → String → Template F Pr
    where_node : String → Pr → Templates F Pr → Template F Pr
    -- fields, and whether they are a subset of host and service
    by_node : String → List String → Bool → Templates F Pr → Template F Pr
    changed_state_node : String → String → Templates F Pr → Template F Pr
    throttle_node : String → ℕ → F → Templates F Pr → Template F Pr
    splitp_node : String → Branches F Pr → Template F Pr → Template F Pr
    set_node : String → List (String × Pr) → Templates F Pr → Template F Pr
    coalesce_node : String → Templates F Pr → Template F Pr
    ddt_node : String → Templates F Pr → Template F Pr
    -- duration and field
    stable_node : String → F → String → Templates F Pr → Template F Pr

  pub data Templates (F Pr : Type 0) : Type 0 where
    no_more : Templates F Pr
    also : Template F Pr → Templates F Pr → Templates F Pr

  -- splitp's branches, each with its test
  pub data Branches (F Pr : Type 0) : Type 0 where
    no_branch : Branches F Pr
    branch : Pr → Template F Pr → Branches F Pr → Branches F Pr

pub record Options : Type 0 where
  pub stable_buffer_capacity : ℕ

pub record Compiled (F Pr : Type 0) : Type 0 where
  pub id : String
  pub owner : String
  pub partition : String
  pub match : Pr
  pub enabled : Bool
  pub expires_at : F
  pub has_expiry : Bool
  pub version : ℕ
  pub hash : String
  pub root : Template F Pr
  pub has_coalesce : Bool
  pub paths : List String
  pub opts : Options
