-- ===== src/Http/Puts.antt =====
-- putRule (server.go): the document that a PUT answers, put again.
use riemann_go.Base.{
  ℕ, ◌≤◌, ◌≡◌, refl, ◌∙◌, ap, Bool, true, false, Option, some, String, len, arith,
}
use riemann_go.Base.Float.{Float}
use riemann_go.Base.Json.{Json, Members, put}
use riemann_go.Event.{ok}
use riemann_go.Rule.{Compiled}
use riemann_go.Rule.Compile.{Toolchain, ParseError, parse, compile_doc}
use riemann_go.Rule.Compile.Again.{compile_doc-versioned}
use riemann_go.Engine.{Engine, put_rule}
use riemann_go.Engine.Versions.{put_rule-twice}
use riemann_go.Http.{
  answered, read_body, read_or_none, rule_options, compiled_of, put_answer, put_text,
  put_rule_request,
}

read_or_none-read_body :
    (limit : ℕ) (s : String) → len s ≤ limit → read_or_none (read_body limit (some s)) ≡ some s
unfolding read_or_none read_body
read_or_none-read_body limit s h = ground (arith, h)

unfoldable pub code_of : Bool → ℕ
code_of true = 201
code_of false = 200

module _ {F Pr : Type 0} ⦃fl : Float F⦄ where
  put_answer-code_of :
      (c : Compiled F Pr) (created : Bool) (e : Engine F Pr)
      → put_answer (ok (c, created), e) ≡ (answered (code_of created) c, e)
  unfolding put_answer code_of
  put_answer-code_of c true e = refl
  put_answer-code_of c false e = refl

module _ {F Pr : Type 0} ⦃fl : Float F⦄ (tc : Toolchain F Pr)
    (decode_object : String → Option Members) where
  -- The answer of a request whose document is accepted as a rule.
  put_rule_request-compiled :
      (id text : String) (doc norm : Members) (c : Compiled F Pr) (e : Engine F Pr)
      → len text ≤ 1048576
      → decode_object text ≡ some doc
      → compile_doc tc doc id (rule_options e) ≡ ok (c, norm)
      → put_rule_request tc decode_object id (some text) e
        ≡ put_answer (put_rule {E = ParseError} (ok c) e)
  unfolding put_rule_request put_text parse compiled_of
  put_rule_request-compiled id text doc norm c e h d k =
      rw (read_or_none-read_body 1048576 text h, d, k) refl

  -- A PUT of a document that the compiler accepts answers 200 or 201 with a rule. After it, a PUT of the
  -- normalized document with any version in it, which is the document that the first one answers if it
  -- has created the rule, answers 200 with the same rule and leaves the engine as it is, if neither of the
  -- bodies is longer than 2^20 bytes.
  pub put_rule_request-again :
      (id text text' : String) (doc norm : Members) (v : Json) (c : Compiled F Pr) (e : Engine F Pr)
      → len text ≤ 1048576
      → len text' ≤ 1048576
      → decode_object text ≡ some doc
      → decode_object text' ≡ some (put "version" v norm)
      → compile_doc tc doc id (rule_options e) ≡ ok (c, norm)
      → (created : Bool) × (c' : Compiled F Pr) × (e' : Engine F Pr) × (put_rule_request tc
            decode_object id
            (some text)
            e
          ≡ (answered (code_of created) c', e'))
        × (put_rule_request tc decode_object id (some text') e' ≡ (answered 200 c', e'))
  unfolding code_of rule_options
  put_rule_request-again id text text' doc norm v c e h h' d d' k =
      let (created, c', e', first, second, p) = put_rule-twice ParseError c e in
      let opts : rule_options e' ≡ rule_options e = rw p refl in
      (
        created,
        c',
        e',
        put_rule_request-compiled id text doc norm c e h d k
            ∙ ap put_answer first
            ∙ put_answer-code_of c' created e',
        put_rule_request-compiled id text' (put "version" v norm) norm c e' h' d'
              (rw opts (compile_doc-versioned tc doc id (rule_options e) c norm v k))
            ∙ ap put_answer second
            ∙ put_answer-code_of c' false e',
      )
