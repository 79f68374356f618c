-- ===== src/Event/Defs.antt =====
-- event.go: Event, Decode, MarshalJSON, Clone, Size, Tagged, ValidFieldName.
-- An event is never changed after it is built, so a *Event is its value; a nil slice or map and an
-- empty one are one value, since every reader treats them alike. The result of json.Unmarshal is an
-- argument of decode, and Encoded is what json.Marshal is given, which fails on a number that is no
-- finite one.
use text.Mathlib.Text.{starts_with}
use riemann_go.Base.{
  ℕ, ◌+◌, Bool, true, false, ◌&&◌, ◌||◌, Option, none, some, List, [], ◌∷◌, String, str_eq, len,
  ltb, if◌then◌else◌,
}
use riemann_go.Base.Float.{Float, pos}
use riemann_go.Base.Assoc.{Assoc}

pub record Event (F : Type 0) : Type 0 where
  pub host : String
  pub service : String
  pub state : String
  -- none: absent, which is distinct from zero
  pub metric : Option F
  pub time : F
  pub ttl : F
  pub tags : List String
  pub attributes : Assoc String String
  pub description : String
  pub source : String
  pub expired : Bool

abbrev pub expired_state : String
expired_state = "expired"

pub data DecodeError : Type 0 where
  malformed missing_host missing_service : DecodeError

pub data Result {ℓ κ} (E : Type ℓ) (A : Type κ) : Type (ℓ ⊔ κ) where
  ok : A → Result E A
  err : E → Result E A

-- The pointer fields of the Go type are options, and so are its slice and map.
pub record Wire (F : Type 0) : Type 0 where
  pub host : Option String
  pub service : Option String
  pub state : Option String
  pub metric : Option F
  pub time : Option F
  pub ttl : Option F
  pub tags : Option (List String)
  pub attributes : Option (Assoc String String)
  pub description : Option String
  pub source : Option String

pub record Encoded (F : Type 0) : Type 0 where
  pub host : String
  pub service : String
  pub state : String
  pub metric : Option F
  pub time : F
  pub ttl : F
  pub tags : List String
  pub attributes : Assoc String String
  pub description : String
  pub source : String

abbrev pub default_to {ℓ} : {A : Type ℓ} → A → Option A → A
default_to d none = d
default_to d (some a) = a

-- nil, or a pointer to the empty text
abbrev pub is_blank : Option String → Bool
is_blank none = true
is_blank (some s) = str_eq s ""

module _ {F : Type 0} ⦃fl : Float F⦄ where
  pub default_ttl : F
  default_ttl = fl.of_ℤ (pos 60)

  unfoldable pub fill : Wire F → F → Event F
  fill w receive_time = record {
    host = default_to "" w.host;
    service = default_to "" w.service;
    state = default_to "" w.state;
    metric = w.metric;
    time = default_to receive_time w.time;
    ttl = default_to default_ttl w.ttl;
    tags = default_to [] w.tags;
    attributes = default_to [] w.attributes;
    description = default_to "" w.description;
    source = default_to "" w.source;
    expired = false;
  }

  unfoldable pub decode : Option (Wire F) → F → Result DecodeError (Event F)
  unfolding fill
  decode none receive_time = err malformed
  decode (some w) receive_time =
      if is_blank w.host
      then err missing_host
      else if is_blank w.service
      then err missing_service
      else ok (fill w receive_time)

size_tags : ℕ → List String → ℕ
size_tags n [] = n
size_tags n (t ∷ ts) = size_tags (n + (len t + 16)) ts

size_attributes : ℕ → Assoc String String → ℕ
size_attributes n [] = n
size_attributes n ((k, v) ∷ m) = size_attributes (n + (len k + len v + 32)) m

has_tag : String → List String → Bool
has_tag name [] = false
has_tag name (t ∷ ts) = if str_eq t name then true else has_tag name ts

module _ {F : Type 0} ⦃fl : Float F⦄ where
  -- json.Marshal fails on a NaN and on an infinity.
  abbrev pub is_writable : Event F → Bool
  is_writable e =
      elim e.metric [ none ↦ true | some m ↦ fl.is_finite m ]
      && (fl.is_finite e.time && fl.is_finite e.ttl)

  -- none: an error of json.Marshal
  unfoldable pub marshal_json : Event F → Option (Encoded F)
  marshal_json e =
      if is_writable e
      then some (record {
        host = e.host;
        service = e.service;
        state = e.state;
        metric = e.metric;
        time = e.time;
        ttl = e.ttl;
        tags = e.tags;
        attributes = e.attributes;
        description = e.description;
        source = e.source;
      })
      else none

module _ {F : Type 0} where
  unfoldable pub clone : Event F → Event F
  clone e = record e { metric = e.metric; tags = e.tags; attributes = e.attributes }

  unfoldable pub size : Event F → ℕ
  unfolding size_tags size_attributes
  size e =
      size_attributes
        (size_tags
          (96 + (len e.host + len e.service + len e.state + len e.description + len e.source))
          e.tags)
        e.attributes

  unfoldable pub tagged : Event F → String → Bool
  unfolding has_tag
  tagged e name = has_tag name e.tags

unfoldable pub field_names : String → Bool
field_names name =
    str_eq name "host"
    || str_eq name "service"
    || str_eq name "state"
    || str_eq name "metric"
    || str_eq name "time"
    || str_eq name "ttl"
    || str_eq name "tags"
    || str_eq name "attributes"
    || str_eq name "description"
    || str_eq name "source"

unfoldable pub valid_field_name : String → Bool
unfolding field_names
valid_field_name name =
    if field_names name
    then true
    else starts_with name "attributes." && ltb (len "attributes.") (len name)
