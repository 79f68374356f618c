-- ===== src/Event/Decoding.antt =====
-- Decode and MarshalJSON: the proofs.
use riemann_go.Base.{
  ◌≡◌, ◌≢◌, ◌↔◌, [], some, true, false, inl, inr, if_true, Option-cases, arith, eq_iff,
}
use riemann_go.Base.Float.{Float}
use riemann_go.Event.Defs.{
  Event, Wire, Encoded, ok, default_to, is_writable, decode, marshal_json, default_ttl,
}

-- What json.Unmarshal makes of what json.Marshal wrote: the two structs have the same field tags, an
-- absent metric is omitted and stays absent, and a finite float64 is written with as many digits as it
-- takes to read the same number back.
abbrev pub as_wire : {F : Type 0} → Encoded F → Wire F
as_wire e = record {
  host = some e.host;
  service = some e.service;
  state = some e.state;
  metric = e.metric;
  time = some e.time;
  ttl = some e.ttl;
  tags = some e.tags;
  attributes = some e.attributes;
  description = some e.description;
  source = some e.source;
}

module _ {F : Type 0} ⦃fl : Float F⦄ where
  -- No number of the event is a NaN or an infinity.
  pub record IsFinite (e : Event F) : Type 0 where
    pub metric : (m : F) → e.metric ≡ some m → fl.is_finite m ≡ true
    pub time : fl.is_finite e.time ≡ true
    pub ttl : fl.is_finite e.ttl ≡ true

  is_writable-IsFinite : (e : Event F) → IsFinite e → is_writable e ≡ true
  is_writable-IsFinite e h = elim (Option-cases e.metric) [
    | inl o ↦ rw (o, h.time, h.ttl)
    | inr (m, o) ↦ rw (o, h.metric m o, h.time, h.ttl)
  ]

  -- MarshalJSON writes every event whose metric, time and ttl are finite, and what it writes of one that
  -- has a host and a service is decoded as the event, whatever the receive time; only the mark of a
  -- synthesized expiry, which is not on the wire, is lost.
  pub decode-marshal_json :
      (e : Event F) (receive_time : F)
      → e.host ≢ ""
      → e.service ≢ ""
      → IsFinite e
      → (w : Encoded F) × (marshal_json e ≡ some w)
        × (decode (some (as_wire w)) receive_time ≡ ok (record e { expired = false }))
  unfolding decode marshal_json
  decode-marshal_json e receive_time h s finite = (
    _,
    if_true _ _ (is_writable-IsFinite e finite),
    ground (arith, eq_iff e.host "", eq_iff e.service ""),
  )

  -- What an event decoded from `w` holds.
  pub record IsDecoded (w : Wire F) (receive_time : F) (e : Event F) : Type 0 where
    pub host : w.host ≡ some e.host
    pub host_given : e.host ≢ ""
    pub service : w.service ≡ some e.service
    pub service_given : e.service ≢ ""
    pub state : e.state ≡ default_to "" w.state
    pub metric : e.metric ≡ w.metric
    pub time : e.time ≡ default_to receive_time w.time
    pub ttl : e.ttl ≡ default_to default_ttl w.ttl
    pub tags : e.tags ≡ default_to [] w.tags
    pub attributes : e.attributes ≡ default_to [] w.attributes
    pub description : e.description ≡ default_to "" w.description
    pub source : e.source ≡ default_to "" w.source
    pub ingested : e.expired ≡ false

  -- `decode` accepts exactly the wire objects with a host and a service that are not empty, and the
  -- event that it makes is the one that IsDecoded describes: the metric stays absent if it was, and a
  -- missing time or ttl is the receive time or the default.
  pub decode-ok_iff :
      (w : Wire F) (receive_time : F) (e : Event F)
      → (decode (some w) receive_time ≡ ok e) ↔ IsDecoded w receive_time e
  unfolding decode
  decode-ok_iff w receive_time e = (
    λ h. ground (arith, eq_iff e.host "", eq_iff e.service ""),
    λ d. ground (arith, eq_iff e.host "", eq_iff e.service ""),
  )
