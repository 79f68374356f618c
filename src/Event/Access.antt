-- ===== src/Event/Access.antt =====
-- event.go: FieldKey and ApplyField, the two places that read and write a field by its name.
use Prim.Native.String.{slice}
use text.Mathlib.Text.{starts_with, is_lt}
use riemann_go.Base.{
  Bool, Option, none, some, List, [], ◌∷◌, map, String, str_eq, len, compare_str, ◌<>◌,
  if◌then◌else◌,
}
use riemann_go.Base.Float.{Float, ℤ}
use riemann_go.Base.Assoc.{string_eq, Assoc, lookup, insert, erase}
use riemann_go.Event.Defs.{Event, default_to}

-- What an expression yields, Go's `any`: each integer type is `int`, and `other` is any value that
-- is none of the types named here, by what fmt.Sprint makes of it.
mutual
  pub data Value (F : Type 0) : Type 0 where
    nil : Value F
    float : F → Value F
    int : ℤ → Value F
    str : String → Value F
    bool : Bool → Value F
    strs : List String → Value F
    dict : Assoc String String → Value F
    arr : Values F → Value F
    obj : Fields F → Value F
    other : String → Value F

  pub data Values (F : Type 0) : Type 0 where
    done : Values F
    item : Value F → Values F → Values F

  pub data Fields (F : Type 0) : Type 0 where
    end : Fields F
    field : String → Value F → Fields F → Fields F

-- strings.Join
unfoldable pub join : String → List String → String
join sep [] = ""
join sep (s ∷ []) = s
join sep (s ∷ ss) = s <> (sep <> join sep ss)

-- sort.Strings, which orders by bytes
unfoldable pub insert_sorted : String → List String → List String
insert_sorted s [] = s ∷ []
insert_sorted s (t ∷ ts) = if is_lt (compare_str s t) then s ∷ t ∷ ts else t ∷ insert_sorted s ts

unfoldable pub sort_strings : List String → List String
unfolding insert_sorted
sort_strings [] = []
sort_strings (s ∷ ss) = insert_sorted s (sort_strings ss)

render_attributes : Assoc String String → List String → String
render_attributes m [] = ""
render_attributes m (k ∷ ks) =
    k <> ("=" <> (default_to "" (lookup k m) <> ("\u{1e}" <> render_attributes m ks)))

-- name[len("attributes."):]
abbrev pub attribute_of : String → String
attribute_of name = slice name (len "attributes.") (len name)

module _ {F : Type 0} ⦃fl : Float F⦄ where
  unfoldable pub field_key : Event F → String → String
  unfolding join sort_strings render_attributes
  field_key e name =
      if str_eq name "host"
      then e.host
      else if str_eq name "service"
      then e.service
      else if str_eq name "state"
      then e.state
      else if str_eq name "metric"
      then elim e.metric [ none ↦ "\0nil" | some m ↦ fl.format_g m ]
      else if str_eq name "time"
      then fl.format_g e.time
      else if str_eq name "ttl"
      then fl.format_g e.ttl
      else if str_eq name "tags"
      then join "\u{1e}" e.tags
      else if str_eq name "attributes"
      then render_attributes e.attributes (sort_strings (map (λ kv. kv.0) e.attributes))
      else if str_eq name "description"
      then e.description
      else if str_eq name "source"
      then e.source
      else if starts_with name "attributes."
      then default_to "" (lookup (attribute_of name) e.attributes)
      else ""

  -- The numeric types of Go's `any`, as a float64.
  unfoldable pub num : Value F → Option F
  num (float x) = some x
  num (int n) = some (fl.of_ℤ n)
  num _ = none

-- fmt.Sprint of a value that is neither nil nor a string.
module _ {F : Type 0} (sprint : Value F → String) where
  unfoldable pub text_of : Value F → String
  text_of nil = ""
  text_of (str s) = s
  text_of v = sprint v

  unfoldable pub texts_of : Values F → List String
  unfolding text_of
  texts_of done = []
  texts_of (item v vs) = text_of v ∷ texts_of vs

  unfoldable pub entries_of : Fields F → Assoc String String
  unfolding text_of
  entries_of end = []
  entries_of (field k v fs) = (k, text_of v) ∷ entries_of fs

  unfoldable pub tags_of : Value F → List String → List String
  unfolding texts_of
  tags_of (strs x) old = x
  tags_of (arr x) old = texts_of x
  tags_of nil old = []
  tags_of _ old = old

  unfoldable pub attributes_of : Value F → Assoc String String → Assoc String String
  unfolding entries_of
  attributes_of (dict x) old = x
  attributes_of (obj x) old = entries_of x
  attributes_of nil old = []
  attributes_of _ old = old

  -- delete on nil, a write otherwise
  unfoldable pub set_attribute : String → Value F → Assoc String String → Assoc String String
  unfolding text_of
  set_attribute k nil m = erase k m
  set_attribute k v m = insert k (text_of v) m

module _ {F : Type 0} ⦃fl : Float F⦄ (sprint : Value F → String) where
  unfoldable pub apply_field : Event F → String → Value F → Event F
  apply_field dst name v =
      if str_eq name "host"
      then record dst { host = text_of sprint v }
      else if str_eq name "service"
      then record dst { service = text_of sprint v }
      else if str_eq name "state"
      then record dst { state = text_of sprint v }
      else if str_eq name "description"
      then record dst { description = text_of sprint v }
      else if str_eq name "source"
      then record dst { source = text_of sprint v }
      else if str_eq name "metric"
      then record dst { metric = num v }
      else if str_eq name "time"
      then record dst { time = default_to dst.time (num v) }
      else if str_eq name "ttl"
      then record dst { ttl = default_to dst.ttl (num v) }
      else if str_eq name "tags"
      then record dst { tags = tags_of sprint v dst.tags }
      else if str_eq name "attributes"
      then record dst { attributes = attributes_of sprint v dst.attributes }
      else if starts_with name "attributes."
      then record dst { attributes = set_attribute sprint (attribute_of name) v dst.attributes }
      else dst
