-- ===== src/Http/Handlers.antt =====
-- internal/httpapi/server.go: the handlers of reads and of rules. An error's message is left out.
use riemann_go.Base.{
  ℕ, suc, Bool, true, false, Option, none, some, List, String, str_eq, if◌then◌else◌,
}
use riemann_go.Base.Float.{Float, ℤ, pos}
use riemann_go.Base.Json.{Members}
use riemann_go.Event.{Event, Result, ok, err}
use riemann_go.Rule.{Compiled, Emitted, Options, Vm}
use riemann_go.Rule.Compile.{Toolchain, ParseError, parse}
use riemann_go.Engine.{
  Engine, AsOf, as_of, put_rule, delete_rule, index_lookup, index_query, recent_events, rule, rules,
  dry_run,
}
use riemann_go.Http.Requests.{Answer, refused, answered, BodyRead, read_all, read_body}

-- The status of what is found, or 404
unfoldable pub found_or_404 : {A : Type 0} → Option A → Answer A
found_or_404 none = refused 404
found_or_404 (some a) = answered 200 a

-- The status of what is well-formed, or 400
unfoldable pub found_or_400 : {A : Type 0} → Option A → Answer A
found_or_400 none = refused 400
found_or_400 (some a) = answered 200 a

unfoldable pub positive_limit : Option ℤ → Option ℕ
positive_limit (some (pos (suc n))) = some (suc n)
positive_limit _ = none

-- The parameter limit; a text that is empty stands for one that is not there.
unfoldable pub limit_of : (String → Option ℤ) → String → Option ℕ
unfolding positive_limit
limit_of atoi s = if str_eq s "" then some 1000 else positive_limit (atoi s)

-- The parameter since
unfoldable pub since_of : {F : Type 0} ⦃fl : Float F⦄ → (String → Option F) → String → Option F
since_of ⦃fl⦄ parse_float s = if str_eq s "" then some (fl.of_ℤ (pos 0)) else parse_float s

unfoldable pub read_or_none : BodyRead → Option String
read_or_none (read_all s) = some s
read_or_none _ = none

module _ {F Pr : Type 0} ⦃fl : Float F⦄ where
  unfoldable pub get_index_entry : String → String → F → Engine F Pr → Answer (Event F)
  unfolding found_or_404
  get_index_entry host service now e = found_or_404 (index_lookup host service now e)

  -- getRule, less the counters
  -- getRules
  unfoldable pub get_rules : Engine F Pr → Answer (List (Compiled F Pr))
  get_rules e = answered 200 (rules e)

  unfoldable pub get_rule : String → Engine F Pr → Answer (Compiled F Pr)
  unfolding found_or_404
  get_rule id e = found_or_404 (rule id e)

  -- deleteRule: the status, and the engine
  unfoldable pub delete_rule_request : String → Engine F Pr → ℕ × Engine F Pr
  delete_rule_request id e = let (found, e') = delete_rule id e in (if found then 204 else 404, e')

  unfoldable pub rule_options : Engine F Pr → Options
  rule_options e = record { stable_buffer_capacity = e.p.stable_buffer_capacity }

  -- The answer of putRule by what PutRule returns
  unfoldable pub put_answer :
      Result ParseError (Compiled F Pr × Bool) × Engine F Pr → Answer (Compiled F Pr) × Engine F Pr
  put_answer (err x, e) = (refused 400, e)
  put_answer (ok (c, true), e) = (answered 201 c, e)
  put_answer (ok (c, false), e) = (answered 200 c, e)

unfoldable pub compiled_of :
    {F Pr : Type 0}
    → Result ParseError (Compiled F Pr × Members)
    → Result ParseError (Compiled F Pr)
compiled_of (ok (c, norm)) = ok c
compiled_of (err x) = err x

module _ {F Pr : Type 0} ⦃fl : Float F⦄ (tc : Toolchain F Pr)
    (decode_object : String → Option Members) where
  unfoldable pub put_text :
      String → Option String → Engine F Pr → Answer (Compiled F Pr) × Engine F Pr
  unfolding compiled_of put_answer
  put_text id none e = (refused 400, e)
  put_text id (some text) e =
      put_answer (put_rule (compiled_of (parse tc (decode_object text) id (rule_options e))) e)

  -- putRule, of at most 2^20 bytes
  unfoldable pub put_rule_request :
      String → Option String → Engine F Pr → Answer (Compiled F Pr) × Engine F Pr
  unfolding put_text read_body read_or_none
  put_rule_request id sent e = put_text id (read_or_none (read_body 1048576 sent)) e

module _ {F Pr : Type 0} ⦃fl : Float F⦄ ⦃vm : Vm F Pr⦄ where
  select_events :
      Option F → Option ℕ → Option (Option Pr) → F → Engine F Pr → Option (List (Event F))
  select_events (some since) (some limit) (some query) now e = recent_events query since limit now e
  select_events _ _ _ now e = none

  indexed : Option (Option Pr) → List F → Engine F Pr → Option (AsOf F × List (Event F))
  indexed none ts e = none
  indexed (some query) ts e = some (as_of ts, index_query query ts e)

  -- getIndex, of the parameter q, at the instants `ts` at which IndexQuery reads the shards
  unfoldable pub get_index :
      (String → Option (Option Pr))
      → String
      → List F
      → Engine F Pr
      → Answer (AsOf F × List (Event F))
  unfolding found_or_400 indexed
  get_index compile_query q ts e = found_or_400 (indexed (compile_query q) ts e)

  -- getEvents, of the parameters q, since and limit; `compile_query` makes a predicate, or the absent one
  -- of an empty text (none: an error).
  unfoldable pub get_events :
      (String → Option F)
      → (String → Option ℤ)
      → (String → Option (Option Pr))
      → String
      → String
      → String
      → F
      → Engine F Pr
      → Answer (List (Event F))
  unfolding found_or_400 select_events since_of limit_of
  get_events parse_float atoi compile_query q since limit now e =
      found_or_400
        (select_events (since_of parse_float since) (limit_of atoi limit) (compile_query q) now e)

  dry_answer : ℕ → Result ParseError (Compiled F Pr) → Engine F Pr → Answer (List (Emitted F))
  dry_answer fuel (err x) e = refused 400
  dry_answer fuel (ok c) e = answered 200 (dry_run fuel c e)

  dry_text :
      Toolchain F Pr
      → (String → Option Members)
      → ℕ
      → String
      → Option String
      → Engine F Pr
      → Answer (List (Emitted F))
  unfolding dry_answer compiled_of
  dry_text tc decode_object fuel id none e = refused 400
  dry_text tc decode_object fuel id (some text) e =
      dry_answer fuel (compiled_of (parse tc (decode_object text) id (rule_options e))) e

  -- dryRun
  unfoldable pub dry_run_request :
      Toolchain F Pr
      → (String → Option Members)
      → ℕ
      → String
      → Option String
      → Engine F Pr
      → Answer (List (Emitted F))
  unfolding dry_text read_body read_or_none
  dry_run_request tc decode_object fuel id sent e =
      dry_text tc decode_object fuel id (read_or_none (read_body 1048576 sent)) e
