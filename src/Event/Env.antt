-- ===== src/Event/Env.antt =====
-- event.go: Env and AsMap, what an event shows to an expression.
use riemann_go.Base.{Option, none, some, List, [], ◌∷◌, ◌++◌, String}
use riemann_go.Base.Assoc.{Assoc}
use riemann_go.Event.Defs.{Event}
use riemann_go.Event.Access.{
  Value, nil, float, str, bool, strs, dict, arr, obj, Values, done, item, Fields, end, field,
}

-- An entry of the environment: a value, or the function `tagged` of the event.
pub data EnvEntry (F : Type 0) : Type 0 where
  value : Value F → EnvEntry F
  tagged_of : Event F → EnvEntry F

module _ {F : Type 0} where
  unfoldable pub metric_value : Option F → Value F
  metric_value none = nil
  metric_value (some m) = float m

  unfoldable pub as_map : Event F → Fields F
  unfolding metric_value
  as_map e = field "host" (str e.host) (
      field "service" (str e.service) (
        field "state" (str e.state) (
          field "metric" (metric_value e.metric) (
            field "time" (float e.time) (
              field "ttl" (float e.ttl) (
                field "tags" (strs e.tags) (
                  field "attributes" (dict e.attributes) (
                    field "description" (str e.description)
                      (field "source" (str e.source) (field "expired" (bool e.expired) end))))))))))

  objects : List (Fields F) → Values F
  objects [] = done
  objects (f ∷ fs) = item (obj f) (objects fs)

  events_entry : Option (List (Fields F)) → Assoc String (EnvEntry F)
  unfolding objects
  events_entry none = []
  events_entry (some set) = ("events", value (arr (objects set))) ∷ []

  unfoldable pub env : Event F → F → Option (List (Fields F)) → Assoc String (EnvEntry F)
  unfolding events_entry metric_value
  env e now events =
      (("host", value (str e.host))
        ∷ ("service", value (str e.service))
        ∷ ("state", value (str e.state))
        ∷ ("metric", value (metric_value e.metric))
        ∷ ("time", value (float e.time))
        ∷ ("ttl", value (float e.ttl))
        ∷ ("tags", value (strs e.tags))
        ∷ ("attributes", value (dict e.attributes))
        ∷ ("description", value (str e.description))
        ∷ ("source", value (str e.source))
        ∷ ("tagged", tagged_of e)
        ∷ ("now", value (float now))
        ∷ ("expired", value (bool e.expired))
        ∷ [])
      ++ events_entry events
