-- ===== src/EventBus.antt =====
-- src/core/event_bus.py, with src/database/models/event.py and event_repository.py. A handler is named
-- by a number; the data of an event are JSON texts. One round of `_process_events` is a function of
-- the bus, and its thread the caller of it.
pub mod Delivery
pub mod Patterns
mod Samples
use agent_server_platform.Base.{
  ℕ, zero, suc, ◌+◌, String, ◌<>◌, Bool, true, false, Option, none, some, option_map, List, [], ◌∷◌,
  ◌++◌, ◌==◌, string_eq, nat_eq, if◌then◌else◌, ltb, length, select, contains, strip_suffix,
}
use agent_server_platform.Base.Dict.{Dict, lookup, insert}
use agent_server_platform.Database.Query.{find_by_criteria, column_is, limited, sort_by}
use text.Mathlib.Text

pub record Event : Type 0 where
  pub event_type : String
  pub data_text : String
  pub trace_id : String
  pub metadata : String
  pub timestamp : ℕ

-- `subscribers`, the bounded queue and the rows that `event_repo` has written.
pub record EventBus : Type 0 where
  pub subscribers : Dict String (List ℕ)
  pub event_queue : List Event
  pub rows : List Event

-- `Queue(maxsize=10000)`
abbrev pub maxsize : ℕ
maxsize = 10000

-- `put(block=True, timeout=1)` with its error caught, where nothing is taken out meanwhile.
unfoldable pub put : Event → List Event → List Event
put event q = if ltb (length q) maxsize then q ++ event ∷ [] else q

-- Whether EVENT_PERSIST_DISABLED is set, and whether the repository raises; the error is logged.
pub data Persistence : Type 0 where
  written disabled raises : Persistence

unfoldable pub persist : Persistence → Event → List Event → List Event
persist written event rows = rows ++ event ∷ []
persist disabled event rows = rows
persist raises event rows = rows

-- `if not trace_id: trace_id = str(uuid.uuid4())`
abbrev pub trace_of : String → Option String → String
trace_of uuid none = uuid
trace_of uuid (some trace_id) = if trace_id == "" then uuid else trace_id

-- `metadata or {}`
abbrev pub metadata_of : Option String → String
metadata_of none = "{}"
metadata_of (some metadata) = metadata

-- `emit`, which answers with the trace id.
-- The two places that an event goes to.
unfoldable pub send : Persistence → Event → EventBus → EventBus
unfolding persist put
send persistence event bus = record bus {
  event_queue = put event bus.event_queue;
  rows = persist persistence event bus.rows;
}

unfoldable pub emit :
    Persistence
    → ℕ
    → String
    → String
    → String
    → Option String
    → Option String
    → EventBus
    → EventBus × String
unfolding send
emit persistence now uuid event_type data_text trace_id metadata bus =
    let event : Event = record {
      event_type = event_type;
      data_text = data_text;
      trace_id = trace_of uuid trace_id;
      metadata = metadata_of metadata;
      timestamp = now;
    } in
    (send persistence event bus, event.trace_id)

-- `self.subscribers.get(event_type, [])`
unfoldable pub handlers_of : String → Dict String (List ℕ) → List ℕ
unfolding lookup
handlers_of event_type subscribers = elim (lookup event_type subscribers) [
  | none ↦ []
  | some handlers ↦ handlers
]

unfoldable pub subscribe : String → ℕ → EventBus → EventBus
unfolding handlers_of insert
subscribe event_type handler bus = record bus {
  subscribers =
      insert event_type (handlers_of event_type bus.subscribers ++ handler ∷ []) bus.subscribers;
}

-- `list.remove`: the first occurrence.
unfoldable pub remove : ℕ → List ℕ → List ℕ
remove h [] = []
remove h (x ∷ xs) = let rest = remove h xs in if x == h then xs else x ∷ rest

unfoldable pub unsubscribe : String → ℕ → EventBus → EventBus
unfolding handlers_of insert remove contains
unsubscribe event_type handler bus =
    let handlers = handlers_of event_type bus.subscribers in
    if contains handlers handler
    then record bus { subscribers = insert event_type (remove handler handlers) bus.subscribers }
    else bus

-- The handlers of the patterns that an event's type matches: `subscribed_type[:-2]` is a prefix of it,
-- where `subscribed_type` ends in `.*`.
unfoldable pub wildcard_handlers : String → Dict String (List ℕ) → List ℕ
unfolding strip_suffix
wildcard_handlers event_type [] = []
wildcard_handlers event_type ((subscribed_type, handlers) ∷ d) =
    let rest = wildcard_handlers event_type d in
    elim (strip_suffix ".*" subscribed_type) [
      | none ↦ rest
      | some prefix ↦ if Text.starts_with event_type prefix then handlers ++ rest else rest
    ]

-- The handlers that are called for an event, in order; a handler that raises is logged only.
unfoldable pub called : String → Dict String (List ℕ) → List ℕ
unfolding handlers_of wildcard_handlers
called event_type subscribers =
    handlers_of event_type subscribers ++ wildcard_handlers event_type subscribers

-- One round of `_process_events`: the oldest event, with the calls it makes; none after a timeout.
unfoldable pub process_event : EventBus → EventBus × Option (Event × List ℕ)
unfolding called
process_event bus = elim bus.event_queue [
  | [] ↦ (bus, none)
  | event ∷ q ↦
      (record bus { event_queue = q }, some (event, called event.event_type bus.subscribers))
]

-- `ORDER BY timestamp DESC`
abbrev pub latest : Event → Event → Bool
latest e f = ltb f.timestamp e.timestamp

-- `if not trace_id: return []`
unfoldable pub find_by_trace_id : String → ℕ → List Event → List Event
unfolding find_by_criteria
find_by_trace_id trace_id limit rows =
    if trace_id == ""
    then []
    else find_by_criteria (λ e. e.trace_id == trace_id) latest (some limit) rows

unfoldable pub find_by_event_type : String → ℕ → List Event → List Event
unfolding find_by_criteria
find_by_event_type event_type limit rows =
    find_by_criteria (λ e. e.event_type == event_type) latest (some limit) rows

unfoldable pub find_recent : ℕ → List Event → List Event
find_recent limit rows = limited (some limit) (sort_by latest rows)
