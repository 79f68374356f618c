-- ===== src/Tests/HttpTests.antt =====
-- The theorems on the HTTP adapter, at concrete requests.
use riemann_go.Base.{ℕ, ◌≤◌, ◌≢◌, refl, false, none, some, [], ◌∷◌, arith}
use riemann_go.Event.{marshal_json}
use riemann_go.Event.Decoding.{as_wire}
use riemann_go.Http.{
  Decoders, LimitListener, new_limit_listener, take_slot, accept_succeeds, return_conn,
}
use riemann_go.Http.Slots.{Steps, takes, succeeds, returns, Reach, here, next, take_slot-frees}
use riemann_go.Tests.Samples.{Tick, tick_float, event_at}

-- every object is taken as the same event
abbrev one_event : Decoders Tick
one_event = record {
  raws_of_array = λ s. none;
  wire_of =
      λ s. elim (marshal_json (event_at "cpu" "ok" 1)) [ none ↦ none | some w ↦ some (as_wire w) ];
}

-- A slot is taken, and the listener beneath accepts a connection, which is returned.
abbrev returned : LimitListener
returned = record {
  max = 1;
  sem = 1;
  accepting = 0;
  counting = 0;
  gauge = 1;
  conns = false ∷ [];
  closing = 0;
  leaving = 0;
}

one_connection : Reach (new_limit_listener 1) returned
unfolding take_slot new_limit_listener accept_succeeds return_conn
one_connection =
    next (next (next here (takes refl)) (succeeds (omega arith) refl)) (returns (omega arith) refl)

take_slot-frees_example :
    (n : ℕ) × (n ≤ 3) × ((t : LimitListener) × Steps n returned t × (take_slot t ≢ none))
take_slot-frees_example = take_slot-frees 1 (omega arith) one_connection
