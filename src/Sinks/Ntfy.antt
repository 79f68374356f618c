-- ===== src/Sinks/Ntfy.antt =====
-- internal/sinks/ntfy/ntfy.go: Priority, Body and Deliver. json.Marshal of a text and of a float64 (none:
-- an error) are arguments; the body is the struct that is marshalled at the end.
use riemann_go.Base.{
  ℕ, ◌+◌, Bool, true, false, ◌||◌, Option, none, some, List, [], ◌∷◌, String, str_eq, ◌<>◌,
  if◌then◌else◌,
}
use riemann_go.Base.Decimal.{format_int}
use riemann_go.Base.Float.{Float}
use riemann_go.Event.{default_to}
use riemann_go.Rule.{Emitted}
use riemann_go.Sinks.Reply.{Reply, is_delivered, posted_of}

unfoldable pub priority : String → ℕ
priority state =
    if str_eq state "ok" || str_eq state "info"
    then 2
    else if str_eq state "warning"
    then 4
    else if str_eq state "error" || str_eq state "critical" || str_eq state "emergency"
    then 5
    else 3

pub record Message : Type 0 where
  pub topic : String
  pub title : String
  pub message : String
  pub priority : ℕ
  pub tags : List String

pub record Encoder (F : Type 0) : Type 0 where
  pub encode_string : String → String
  pub encode_float : F → Option String

module _ {F : Type 0} ⦃fl : Float F⦄ (json : Encoder F) where
  metric_text : Option F → String
  metric_text none = ""
  metric_text (some m) = " (" <> (fl.format_g m <> ")")

  -- writeJSON of the metric: null if there is none, or if it cannot be marshalled
  metric_json : Option F → String
  metric_json none = "null"
  metric_json (some m) = default_to "null" (json.encode_float m)

  prior_json : Option String → String
  prior_json none = "null"
  prior_json (some s) = json.encode_string s

  provenance : Emitted F → String
  unfolding metric_json prior_json
  provenance f =
      let str = json.encode_string in
      "{\"rule\":"
      <> (str f.rule
          <> (",\"version\":"
              <> (format_int f.version
                  <> (",\"owner\":"
                      <> (str f.owner
                          <> (",\"host\":"
                              <> (str f.event.host
                                  <> (",\"service\":"
                                      <> (str f.event.service
                                          <> (",\"state\":"
                                              <> (str f.event.state
                                                  <> (",\"metric\":"
                                                      <> (metric_json f.event.metric
                                                          <> (",\"prior_state\":"
                                                            <> (prior_json f.prior_state
                                                            <> (",\"node\":"
                                                            <> (str f.path <> "}")))))))))))))))))

  unfoldable pub body : String → Emitted F → Message
  unfolding metric_text provenance priority
  body topic f =
      let ev = f.event in
      record {
        topic = topic;
        title = ev.host <> (" " <> (ev.service <> (" " <> ev.state)));
        message =
            ev.host
            <> (" "
                <> (ev.service
                    <> (" is "
                        <> (ev.state
                            <> (metric_text ev.metric <> ("\nriemann-go: " <> provenance f))))));
        priority = priority ev.state;
        tags = ("rule:" <> f.rule) ∷ ("owner:" <> f.owner) ∷ [];
      }

  -- Deliver: what is posted, and whether all of it counts as delivered. The replies come by the number
  -- of the request.
  unfoldable pub deliver : String → (ℕ → Reply) → ℕ → List (Emitted F) → List Message × Bool
  unfolding body is_delivered posted_of
  deliver topic answer k [] = ([], true)
  deliver topic answer k (f ∷ fs) =
      let (posted, done) = deliver topic answer (k + 1) fs in
      if is_delivered (answer k)
      then (body topic f ∷ posted, done)
      else (posted_of (answer k) (body topic f), false)
