-- ===== src/Tests/SinkTests.antt =====
-- The theorems on the sinks, at concrete firings.
use riemann_go.Base.{ℕ, ◌≡◌, none, List, [], ◌∷◌, String}
use riemann_go.Rule.{Emitted}
use riemann_go.Sinks.Influx.{body}
use riemann_go.Sinks.Reply.{Reply, status}
use riemann_go.Sinks.Ntfy.{Encoder, deliver}
use riemann_go.Sinks.Lines.{lines, points, lines-body}
use riemann_go.Sinks.Posts.{IsPosted, deliver-IsPosted}
use riemann_go.Tests.Samples.{Tick, tick_float, event_at, firing_of}

abbrev nanos : Tick → String
nanos t = "1"

-- The state has a line feed.
abbrev firings : List (Emitted Tick)
firings =
    firing_of "influx" (event_at "disk usage" "ok" 1)
    ∷ firing_of "influx" (event_at "cpu" "a\nb" 1)
    ∷ []

lines-body_example : lines (body nanos firings) ≡ points nanos firings
lines-body_example = lines-body nanos firings

abbrev encoder : Encoder Tick
encoder = record { encode_string = λ s. s; encode_float = λ x. none }

abbrev answers : ℕ → Reply
answers k = status 200

deliver-IsPosted_example :
    IsPosted encoder "alerts" answers 0 firings (deliver encoder "alerts" answers 0 firings)
deliver-IsPosted_example = deliver-IsPosted encoder "alerts" answers 0 firings
