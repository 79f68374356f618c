-- ===== src/Sinks/Escapes.antt =====
-- The replacers of influx.go against a reader of the line protocol.
use Prim.Native.String.{[] as no_text, ◌∷◌ as ◌∷ₜ◌}
use Prim.Native.Char.{Char, code}
use riemann_go.Base.{ℕ, Bool, true, ◌&&◌, ◌||◌, not, String, ◌==◌, if◌then◌else◌}

abbrev pub backslash : ℕ
backslash = 92

abbrev pub line_feed : ℕ
line_feed = 10

-- How a reader of the line protocol takes a name or a value: up to the end of the line or the first special
-- character that no backslash precedes. A backslash before a special character or another backslash is
-- dropped, any other stands for itself.
unfoldable pub read_escaped : (ℕ → Bool) → String → String × String
read_escaped special no_text = (no_text, no_text)
read_escaped special (c ∷ₜ no_text) =
    if special (code c) || code c == line_feed
    then (no_text, c ∷ₜ no_text)
    else (c ∷ₜ no_text, no_text)
read_escaped special (c ∷ₜ (d ∷ₜ s)) =
    let escaped : String × String = (d ∷ₜ (read_escaped special s).0, (read_escaped special s).1) in
    let kept : String × String =
      (c ∷ₜ (read_escaped special (d ∷ₜ s)).0, (read_escaped special (d ∷ₜ s)).1) in
    if code c == backslash && (special (code d) || code d == backslash)
    then escaped
    else if special (code c) || code c == line_feed
    then (no_text, c ∷ₜ (d ∷ₜ s))
    else kept

-- The text has no backslash and no line feed.
unfoldable pub is_clean : String → Bool
is_clean no_text = true
is_clean (c ∷ₜ s) = not (code c == backslash) && not (code c == line_feed) && is_clean s
