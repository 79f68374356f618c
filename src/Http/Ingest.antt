-- ===== src/Http/Ingest.antt =====
-- postEvents (server.go): which answer each request gets, and what it does to the engine.
use Prim.Native.String.{[] as no_text, ◌∷◌ as ◌∷ₜ◌}
use Prim.Native.Char.{Char, code}
use riemann_go.Base.{
  ℕ, ◌+◌, ◌≤◌, ◌<◌, ◌≡◌, ◌⊎◌, Option, none, some, List, [], ◌∷◌, String, len, length, get_elem?,
  add64,
}
use riemann_go.Base.Float.{Float}
use riemann_go.Event.{Event, ok, err, DecodeError, decode}
use riemann_go.SinkQueue.{SinkQueue}
use riemann_go.Params.{trim_space}
use riemann_go.Engine.{Engine, admit}
use riemann_go.Http.Requests.{
  Answer, refused, answered, SinkLoad, Ingested, partly, all_accepted, Decoders,
}

-- What a 202 says of a sink: its name, its queued firings, its room, and what it dropped.
unfoldable pub load_of : {A : Type 0} → SinkQueue A → SinkLoad
load_of q = record { name = q.name; depth = q.n; capacity = length q.buf; dropped = q.dropped }

module _ {F : Type 0} ⦃fl : Float F⦄ (json : Decoders F) where
  -- The text is an array of these items, or an object, which is the one item.
  unfoldable pub IsBatch : String → List String → Type 0
  IsBatch s raws =
      (c : Char) × (rest : String) × (s ≡ c ∷ₜ rest)
      × (((code c ≡ b'[') × (json.raws_of_array s ≡ some raws))
          ⊎ ((code c ≡ b'{') × (raws ≡ s ∷ [])))

module _ {F : Type 0} ⦃fl : Float F⦄ (json : Decoders F) (receive_time : F) where
  -- Each item is decoded as the event at its place.
  unfoldable pub AreDecoded : List String → List (Event F) → Type 0
  AreDecoded [] [] = Unit
  AreDecoded (raw ∷ raws) (ev ∷ evs) =
      (decode (json.wire_of raw) receive_time ≡ ok ev) × AreDecoded raws evs
  AreDecoded _ _ = ⊥

  -- One of the items does not decode.
  unfoldable pub HasBad : List String → Type 0
  HasBad raws =
      (i : ℕ) × (raw : String) × (x : DecodeError) × (get_elem? raws i ≡ some raw)
      × (decode (json.wire_of raw) receive_time ≡ err x)

module _ {F Pr : Type 0} ⦃fl : Float F⦄ (json : Decoders F)
    (wait : ℕ → Engine F Pr → Option (Engine F Pr)) (receive_time : F) where
  -- The request is read, and holds this batch.
  unfoldable pub Holds : Option String → Engine F Pr → List String → Type 0
  unfolding IsBatch
  Holds sent e raws =
      (s : String) × (sent ≡ some s)
      × (len s ≤ e.p.ingest_max_batch_bytes)
      × IsBatch json (trim_space s) raws

  -- The answers of postEvents, each with its conditions and with the engine after it.
  pub data Told (sent : Option String) (e : Engine F Pr)
      : Answer Ingested × Engine F Pr → Type 0 where
    -- the body cannot be read
    unread : sent ≡ none → Told sent e (refused 400, e)
    too_long :
        (s : String)
        → sent ≡ some s
        → e.p.ingest_max_batch_bytes < len s
        → Told sent e (refused 413, e)
    -- the body is read, and is no batch
    no_batch :
        (s : String)
        → sent ≡ some s
        → len s ≤ e.p.ingest_max_batch_bytes
        → ((raws : List String) → ¬ IsBatch json (trim_space s) raws)
        → Told sent e (refused 400, e)
    too_many :
        (raws : List String)
        → Holds sent e raws
        → e.p.ingest_max_batch_events < length raws
        → Told sent e
            (refused 413, record e { ingest_rejected = add64 e.ingest_rejected (length raws) })
    undecoded :
        (raws : List String)
        → Holds sent e raws
        → length raws ≤ e.p.ingest_max_batch_events
        → HasBad json receive_time raws
        → Told sent e
            (refused 400, record e { ingest_rejected = add64 e.ingest_rejected (length raws) })
    -- Admit takes all events but those that it rejects
    shed :
        (raws : List String) (evs : List (Event F)) (accepted rejected : ℕ) (t : Engine F Pr)
        → Holds sent e raws
        → length raws ≤ e.p.ingest_max_batch_events
        → AreDecoded json receive_time raws evs
        → admit wait evs e ≡ ((accepted, rejected), t)
        → 0 < rejected
        → accepted + rejected ≡ length evs
        → Told sent e (answered 429 (partly accepted rejected), t)
    taken :
        (raws : List String) (evs : List (Event F)) (t : Engine F Pr)
        → Holds sent e raws
        → length raws ≤ e.p.ingest_max_batch_events
        → AreDecoded json receive_time raws evs
        → admit wait evs e ≡ ((length evs, 0), t)
        → Told sent e (
          answered 202
              (all_accepted (length evs) (load_of t.sink_ntfy ∷ load_of t.sink_influx ∷ [])),
          t,
        )
