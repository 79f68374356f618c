-- ===== src/Tests/ParamsTests.antt =====
-- The theorem on the parameters, at a concrete pair.
use riemann_go.Base.{◌≡◌, refl, none, some, str_eq, if◌then◌else◌}
use riemann_go.Base.Float.{pos}
use riemann_go.Event.{ok}
use riemann_go.Params
use riemann_go.Params.{Strconv, defaults, set_param}

abbrev sample_strconv : Strconv
sample_strconv = record {
  parse_int = λ s. if str_eq s "5" then some (pos 5) else none;
  parse_duration = λ s unit. none;
}

-- The pair sets the parameter that it names.
five_shards :
    set_param sample_strconv "engine.shards = 5" (defaults 8)
    ≡ ok (record (defaults 8) { shards = 5 })
unfolding set_param Params.trim_space Params.set_named Params.pos_int
five_shards = refl
