-- ===== src/Http/Requests.antt =====
-- internal/httpapi/server.go: postEvents, and what handlers read and answer. A body is the text that the client sent,
-- or none where reading it failed; an error's message is left out, and so are headers.
use Prim.Native.String.{[] as no_text, ◌∷◌ as ◌∷ₜ◌}
use Prim.Native.Char.{code}
use riemann_go.Base.{
  ℕ, Option, none, some, List, [], ◌∷◌, String, len, ltb, ◌==◌, if◌then◌else◌, length, add64,
}
use riemann_go.Base.Float.{Float}
use riemann_go.Event.{Event, Wire, ok, err, decode}
use riemann_go.SinkQueue.{stats}
use riemann_go.Params.{trim_space}
use riemann_go.Engine.{Engine, admit}

-- writeError with a status, or writeJSON with a status and a value
pub data Answer (A : Type 0) : Type 0 where
  refused : ℕ → Answer A
  answered : ℕ → A → Answer A

pub data BodyRead : Type 0 where
  too_big read_failed : BodyRead
  read_all : String → BodyRead

-- io.ReadAll of http.MaxBytesReader
unfoldable pub read_body : ℕ → Option String → BodyRead
read_body limit none = read_failed
read_body limit (some s) = if ltb limit (len s) then too_big else read_all s

-- json.Unmarshal of a text into a list of raw values, and of a raw value into an event's wire form; none
-- for an error.
pub record Decoders (F : Type 0) : Type 0 where
  pub raws_of_array : String → Option (List String)
  pub wire_of : String → Option (Wire F)

pub record SinkLoad : Type 0 where
  pub name : String
  pub depth : ℕ
  pub capacity : ℕ
  pub dropped : ℕ

pub data Ingested : Type 0 where
  -- accepted and rejected
  partly : ℕ → ℕ → Ingested
  -- accepted, and the load of the sinks
  all_accepted : ℕ → List SinkLoad → Ingested

module _ {F : Type 0} ⦃fl : Float F⦄ (json : Decoders F) where
  -- The raw events of a body without blanks around it; none for a body that is refused.
  unfoldable pub raw_events : String → Option (List String)
  raw_events no_text = none
  raw_events (c ∷ₜ s) =
      if code c == b'['
      then json.raws_of_array (c ∷ₜ s)
      else if code c == b'{'
      then some ((c ∷ₜ s) ∷ [])
      else none

  -- The loop that decodes stops at the first event that does not decode.
  unfoldable pub decode_all : F → List String → Option (List (Event F))
  decode_all receive_time [] = some []
  decode_all receive_time (raw ∷ raws) =
      let rest = decode_all receive_time raws in
      elim (decode (json.wire_of raw) receive_time) [
        | err _ ↦ none
        | ok ev ↦ elim rest [ none ↦ none | some evs ↦ some (ev ∷ evs) ]
      ]

module _ {F Pr : Type 0} ⦃fl : Float F⦄ where
  unfoldable pub count_rejected : ℕ → Engine F Pr → Engine F Pr
  count_rejected n e = record e { ingest_rejected = add64 e.ingest_rejected n }

  unfoldable pub sink_loads : Engine F Pr → List SinkLoad
  sink_loads e =
      let n = stats e.sink_ntfy in
      let i = stats e.sink_influx in
      record { name = n.name; depth = n.depth; capacity = n.capacity; dropped = n.dropped }
      ∷ record { name = i.name; depth = i.depth; capacity = i.capacity; dropped = i.dropped }
      ∷ []

  -- The end of postEvents, after Admit.
  unfoldable pub respond : (ℕ × ℕ) × Engine F Pr → Answer Ingested × Engine F Pr
  unfolding sink_loads
  respond ((accepted, rejected), e) =
      if ltb 0 rejected
      then (answered 429 (partly accepted rejected), e)
      else (answered 202 (all_accepted accepted (sink_loads e)), e)

module _ {F Pr : Type 0} ⦃fl : Float F⦄ (json : Decoders F)
    (wait : ℕ → Engine F Pr → Option (Engine F Pr)) (receive_time : F) where
  unfoldable pub post_decoded :
      ℕ → Option (List (Event F)) → Engine F Pr → Answer Ingested × Engine F Pr
  unfolding count_rejected respond
  post_decoded n none e = (refused 400, count_rejected n e)
  post_decoded n (some evs) e = respond (admit wait evs e)

  unfoldable pub post_raws : Option (List String) → Engine F Pr → Answer Ingested × Engine F Pr
  unfolding count_rejected post_decoded
  post_raws none e = (refused 400, e)
  post_raws (some raws) e =
      if ltb e.p.ingest_max_batch_events (length raws)
      then (refused 413, count_rejected (length raws) e)
      else post_decoded (length raws) (decode_all json receive_time raws) e

  unfoldable pub post_read : BodyRead → Engine F Pr → Answer Ingested × Engine F Pr
  unfolding post_raws
  post_read too_big e = (refused 413, e)
  post_read read_failed e = (refused 400, e)
  post_read (read_all s) e = post_raws (raw_events json (trim_space s)) e

  -- postEvents
  unfoldable pub post_events : Option String → Engine F Pr → Answer Ingested × Engine F Pr
  unfolding post_read
  post_events sent e = post_read (read_body e.p.ingest_max_batch_bytes sent) e
