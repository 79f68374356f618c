-- ===== src/Http/Limit.antt =====
-- internal/httpapi/server.go: LimitListener. Accept has a step that waits for a slot, one that ends by an
-- error of the listener beneath or has a connection, and one that adds to the gauge and returns the
-- connection; Close has one that marks the connection, one that frees the slot and one that takes from the
-- gauge. Any steps of other calls come between. The calls of Close on one connection are taken to follow
-- each other: `closed` is not guarded against two at once.
use riemann_go.Base.{
  ℕ, ◌+◌, ◌-◌, Bool, true, false, Option, none, some, List, [], ◌∷◌, ◌++◌, ltb, if◌then◌else◌, set,
  get_elem?,
}

pub record LimitListener : Type 0 where
  -- the capacity and the length of sem
  pub max : ℕ
  pub sem : ℕ
  -- calls of Accept that hold a slot and have no connection yet
  pub accepting : ℕ
  -- calls of Accept that have a connection and have not added it to the gauge
  pub counting : ℕ
  -- the sum that gauge was given
  pub gauge : ℕ
  -- `closed` of every connection that was returned
  pub conns : List Bool
  -- calls of Close that have marked their connection and still hold its slot
  pub closing : ℕ
  -- calls of Close that have freed the slot and not yet taken from the gauge
  pub leaving : ℕ

unfoldable pub new_limit_listener : ℕ → LimitListener
new_limit_listener max = record {
  max = max;
  sem = 0;
  accepting = 0;
  counting = 0;
  gauge = 0;
  conns = [];
  closing = 0;
  leaving = 0;
}

-- `l.sem <- struct{}{}` of Accept; none while it waits
unfoldable pub take_slot : LimitListener → Option LimitListener
take_slot l =
    if ltb l.sem l.max
    then some (record l { sem = l.sem + 1; accepting = l.accepting + 1 })
    else none

unfoldable pub accept_fails : LimitListener → LimitListener
accept_fails l = record l { sem = l.sem - 1; accepting = l.accepting - 1 }

unfoldable pub accept_succeeds : LimitListener → LimitListener
accept_succeeds l = record l { accepting = l.accepting - 1; counting = l.counting + 1 }

-- `l.gauge(1)`, and the return of the connection
unfoldable pub return_conn : LimitListener → LimitListener
return_conn l = record l {
  counting = l.counting - 1;
  gauge = l.gauge + 1;
  conns = l.conns ++ false ∷ [];
}

-- limitConn.Close up to its call of release, by what `closed` of the connection is; none: no such connection
unfoldable pub close_found : ℕ → Option Bool → LimitListener → LimitListener
close_found i (some false) l = record l { conns = set l.conns i true; closing = l.closing + 1 }
close_found i _ l = l

unfoldable pub close_conn : ℕ → LimitListener → LimitListener
unfolding close_found
close_conn i l = close_found i (get_elem? l.conns i) l

-- `<-l.sem` of release
unfoldable pub free_slot : LimitListener → LimitListener
free_slot l = record l { sem = l.sem - 1; closing = l.closing - 1; leaving = l.leaving + 1 }

-- `l.gauge(-1)` of release
unfoldable pub leave_gauge : LimitListener → LimitListener
leave_gauge l = record l { gauge = l.gauge - 1; leaving = l.leaving - 1 }
