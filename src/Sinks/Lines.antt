-- ===== src/Sinks/Lines.antt =====
-- Line and Deliver (influx.go): how many lines a batch has. A line of the line protocol is one point.
use Prim.Native.String.{[] as no_text, ◌∷◌ as ◌∷ₜ◌}
use Prim.Native.Char.{code}
use text.Mathlib.TextLemmas.{
  nil-append, cons-append, append-ne-nil_of_right_ne-nil, append-eq-nil_iff,
}
use riemann_go.Base.{
  ℕ, ◌+◌, ◌≡◌, ◌≢◌, refl, sym, ◌∙◌, ap, Bool, false, Option, none, some, List, [], ◌∷◌, map, String,
  str_eq, eq_iff, ◌==◌, ◌<>◌, if◌then◌else◌, if_true, if_false, arith, Bool-cases, inl, inr,
}
use riemann_go.Base.Float.{Float}
use riemann_go.Base.Assoc.{Assoc, string_eq, lookup}
use riemann_go.Event.{Event, sort_strings, default_to}
use riemann_go.Rule.{Emitted}
use riemann_go.Sinks.Influx.{
  escape, tag_esc, measurement_esc, put_line, line_at, is_skipped, tag_text, tags_text, state_text,
  line_of, body,
}

-- The number of line feeds in a text
unfoldable pub lines : String → ℕ
lines no_text = 0
lines (c ∷ₜ s) = (if code c == 10 then 1 else 0) + lines s

lines-append : (s t : String) → lines (s <> t) ≡ lines s + lines t
unfolding lines
lines-append no_text t = rw (nil-append t) (omega arith)
lines-append (c ∷ₜ s) t = rw (cons-append c s t) (ground (arith, lines-append s t))

lines-escape : (special : ℕ → Bool) (s : String) → lines (escape special s) ≡ lines s
unfolding lines escape
lines-escape special no_text = refl
lines-escape special (c ∷ₜ s) = ground (arith, lines-escape special s)

-- The line feeds in the attributes that are written
unfoldable pub tag_breaks : List String → Assoc String String → ℕ
tag_breaks [] m = 0
tag_breaks (k ∷ ks) m =
    let v = default_to "" (lookup k m) in
    (if is_skipped k v then 0 else lines k + lines v) + tag_breaks ks m

tag_lines : (k v : String) → lines ("," <> (tag_esc k <> ("=" <> tag_esc v))) ≡ lines k + lines v
unfolding lines
tag_lines k v = simp (lines-append, lines-escape) (omega arith)

lines-tag_text :
    (k v : String) → lines (tag_text k v) ≡ (if is_skipped k v then 0 else lines k + lines v)
unfolding tag_text lines
lines-tag_text k v = elim (Bool-cases (is_skipped k v)) [
  | inl e ↦ ap lines (if_true _ _ e) ∙ sym (if_true 0 (lines k + lines v) e)
  | inr e ↦ ap lines (if_false _ _ e) ∙ tag_lines k v ∙ sym (if_false 0 (lines k + lines v) e)
]

lines-tags_text :
    (ks : List String) (m : Assoc String String) → lines (tags_text ks m) ≡ tag_breaks ks m
unfolding tags_text tag_breaks lines
lines-tags_text [] m = refl
lines-tags_text (k ∷ ks) m =
    lines-append (tag_text k (default_to "" (lookup k m))) (tags_text ks m)
    ∙ omega (arith, lines-tag_text k (default_to "" (lookup k m)), lines-tags_text ks m)

state_lines : (s : String) → lines (",state=" <> tag_esc s) ≡ lines s
unfolding lines
state_lines s = simp (lines-append, lines-escape) (omega arith)

lines-state_text : (s : String) → lines (state_text s) ≡ lines s
unfolding state_text lines
lines-state_text s = elim (Bool-cases (str_eq s "")) [
  | inl e ↦ ap lines (if_true _ _ e) ∙ sym (ap lines ((eq_iff s "").0 e))
  | inr e ↦ ap lines (if_false _ _ e) ∙ state_lines s
]

str_ne : (s t : String) → s ≢ t → str_eq s t ≡ false
str_ne s t h = ground (arith, eq_iff s t, h)

module _ {F : Type 0} ⦃fl : Float F⦄ (format_nanos : F → String) where
  -- The line feeds in the texts of a firing that are written, its metric and its time included
  unfoldable pub breaks : Event F → F → ℕ
  breaks ev metric =
      lines ev.service
      + lines ev.host
      + lines ev.state
      + tag_breaks (sort_strings (map (λ kv. kv.0) ev.attributes)) ev.attributes
      + lines (fl.format_g metric)
      + lines (format_nanos ev.time)

  lines-line_of :
      (ev : Event F) (metric : F) → lines (line_of format_nanos ev metric) ≡ breaks ev metric
  unfolding line_of breaks lines
  lines-line_of ev metric =
      simp (lines-append, lines-escape, lines-state_text, lines-tags_text) (omega arith)

  unfoldable pub points_of : Event F → Option F → ℕ
  points_of ev none = 0
  points_of ev (some metric) = 1 + breaks ev metric

  -- The points of a batch: one for each firing that has a metric, and one more for each line feed in it.
  unfoldable pub points : List (Emitted F) → ℕ
  points [] = 0
  points (f ∷ fs) = points_of f.event f.event.metric + points fs

  line_of-ne-nil : (ev : Event F) (metric : F) → line_of format_nanos ev metric ≢ ""
  unfolding line_of
  line_of-ne-nil ev metric =
      append-ne-nil_of_right_ne-nil (measurement_esc ev.service)
        (λ h. cc ((eq_iff ",host=" "").1 ((append-eq-nil_iff.0 h).0)))

  lines-put_line :
      (ev : Event F) (metric : Option F) (rest : String)
      → lines (put_line (line_at format_nanos ev metric) rest) ≡ points_of ev metric + lines rest
  unfolding put_line line_at points_of lines
  lines-put_line ev none rest = omega arith
  lines-put_line ev (some metric) rest =
      let l = line_of format_nanos ev metric in
      ap lines (if_false rest (l <> ("\n" <> rest)) (str_ne l "" (line_of-ne-nil ev metric)))
      ∙ lines-append l ("\n" <> rest)
      ∙ omega (arith, lines-line_of ev metric, lines-append "\n" rest)

  -- The body that a batch is posted as has one line for each firing that has a metric, and one line more
  -- for each line feed in the texts of such a firing that are written: its service, host, state,
  -- attributes, metric and time. No line feed is escaped.
  pub lines-body : (fs : List (Emitted F)) → lines (body format_nanos fs) ≡ points fs
  unfolding body points lines
  lines-body [] = refl
  lines-body (f ∷ fs) =
      lines-put_line f.event f.event.metric (body format_nanos fs)
      ∙ ap (λ n. points_of f.event f.event.metric + n) (lines-body fs)
