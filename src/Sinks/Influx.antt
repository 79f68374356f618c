-- ===== src/Sinks/Influx.antt =====
-- internal/sinks/influx/influx.go: Line and Deliver. How a time is written, as whole nanoseconds, is an
-- argument, and so is what comes of the request.
use Prim.Native.String.{[] as no_text, ◌∷◌ as ◌∷ₜ◌}
use Prim.Native.Char.{code}
use riemann_go.Base.{
  ℕ, Bool, true, ◌||◌, Option, none, some, List, [], ◌∷◌, map, String, str_eq, ◌==◌, ◌<>◌,
  if◌then◌else◌,
}
use riemann_go.Base.Float.{Float}
use riemann_go.Base.Assoc.{Assoc, string_eq, lookup}
use riemann_go.Event.{Event, sort_strings, default_to}
use riemann_go.Rule.{Emitted}
use riemann_go.Sinks.Reply.{Reply, no_request, is_delivered}

-- The replacers of influx.go put a backslash before each of their characters.
unfoldable pub escape : (ℕ → Bool) → String → String
escape special no_text = no_text
escape special (c ∷ₜ s) =
    let rest : String = c ∷ₜ escape special s in if special (code c) then "\\" ∷ₜ rest else rest

unfoldable pub in_measurement : ℕ → Bool
in_measurement n = n == b',' || n == b' '

unfoldable pub in_tag : ℕ → Bool
in_tag n = n == b',' || n == b'=' || n == b' '

-- measurementEsc.Replace and tagEsc.Replace
abbrev pub measurement_esc : String → String
measurement_esc = escape in_measurement

abbrev pub tag_esc : String → String
tag_esc = escape in_tag

-- An attribute that Line leaves out
unfoldable pub is_skipped : String → String → Bool
is_skipped k v = str_eq k "" || str_eq v "" || str_eq k "host" || str_eq k "state"

unfoldable pub tag_text : String → String → String
unfolding is_skipped
tag_text k v = if is_skipped k v then "" else "," <> (tag_esc k <> ("=" <> tag_esc v))

-- The attributes, by ascending key
unfoldable pub tags_text : List String → Assoc String String → String
unfolding tag_text
tags_text [] m = ""
tags_text (k ∷ ks) m = tag_text k (default_to "" (lookup k m)) <> tags_text ks m

unfoldable pub state_text : String → String
state_text s = if str_eq s "" then "" else ",state=" <> tag_esc s

unfoldable pub put_line : String → String → String
put_line l rest = if str_eq l "" then rest else l <> ("\n" <> rest)

module _ {F : Type 0} ⦃fl : Float F⦄ (format_nanos : F → String) where
  unfoldable pub line_of : Event F → F → String
  unfolding state_text tags_text
  line_of ev metric =
      measurement_esc ev.service
      <> (",host="
          <> (tag_esc ev.host
              <> (state_text ev.state
                  <> (tags_text (sort_strings (map (λ kv. kv.0) ev.attributes)) ev.attributes
                      <> (" metric=" <> (fl.format_g metric <> (" " <> format_nanos ev.time)))))))

  unfoldable pub line_at : Event F → Option F → String
  unfolding line_of
  line_at ev none = ""
  line_at ev (some metric) = line_of ev metric

  -- Line: empty for an event with no metric
  unfoldable pub line : Emitted F → String
  unfolding line_at
  line f = line_at f.event f.event.metric

  -- The body of a batch
  unfoldable pub body : List (Emitted F) → String
  unfolding line put_line
  body [] = ""
  body (f ∷ fs) = put_line (line f) (body fs)

  posted_body : Reply → String → Option String
  posted_body no_request b = none
  posted_body _ b = some b

  -- Deliver: what is posted, if anything, and whether the batch counts as delivered.
  unfoldable pub deliver : (String → Reply) → List (Emitted F) → Option String × Bool
  unfolding body posted_body is_delivered
  deliver answer fs =
      let b = body fs in
      if str_eq b "" then (none, true) else (posted_body (answer b) b, is_delivered (answer b))
