-- ===== src/EventBus/Samples.antt =====
-- A bus with two subscriptions, and the theorems at it.
use agent_server_platform.Base.{
  ◌<>◌, String, ◌≡◌, refl, true, [], ◌∷◌, string_eq, nat_eq, contains, strip_suffix,
}
use agent_server_platform.Base.Dict.{lookup, insert}
use agent_server_platform.EventBus.{
  Event, EventBus, subscribe, handlers_of, wildcard_handlers, called,
}
use agent_server_platform.EventBus.Patterns.{called-subscribe}

abbrev event : String → Event
event event_type = record {
  event_type = event_type;
  data_text = "{}";
  trace_id = "t";
  metadata = "{}";
  timestamp = 1;
}

abbrev empty : EventBus
empty = record { subscribers = []; event_queue = []; rows = [] }

abbrev bus : EventBus
bus = subscribe "task.*" 2 (subscribe "task.started" 1 empty)

both_called : called "task.started" bus.subscribers ≡ 1 ∷ 2 ∷ []
unfolding called handlers_of wildcard_handlers subscribe insert lookup strip_suffix string_eq
both_called = refl

-- The pattern of the task events gets an event of another kind.
taskforce_called : called "taskforce.met" bus.subscribers ≡ 2 ∷ []
unfolding called handlers_of wildcard_handlers subscribe insert lookup strip_suffix string_eq
taskforce_called = refl

called-subscribe_example :
    contains (called ("task" <> "force.met") (subscribe ("task" <> ".*") 7 bus).subscribers) 7
    ≡ true
called-subscribe_example = called-subscribe "task" "force.met" 7 bus
