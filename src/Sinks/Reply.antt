-- ===== src/Sinks/Reply.antt =====
-- internal/sinks: what comes of a request, in Deliver of ntfy.go and of influx.go.
use riemann_go.Base.{ℕ, Bool, false, ◌&&◌, List, [], ◌∷◌, leb}

pub data Reply : Type 0 where
  -- http.NewRequest fails, and nothing is sent
  no_request : Reply
  -- the client fails
  no_response : Reply
  -- a response with this status
  status : ℕ → Reply

unfoldable pub is_delivered : Reply → Bool
is_delivered (status code) = leb 200 code && leb code 299
is_delivered _ = false

-- What is posted, of a body
unfoldable pub posted_of : {A : Type 0} → Reply → A → List A
posted_of no_request a = []
posted_of _ a = a ∷ []
