-- ===== src/Database/Messages.antt =====
-- src/database/models/message.py and src/database/repositories/message_repository.py, the payloads of
-- src/core/message_queue.py that the `content` column holds, and the consumer offsets of
-- src/database/repositories/consumer_offset_repository.py.
use agent_server_platform.Base.{
  ℕ, String, Bool, true, ◌&&◌, Option, none, some, List, [], ◌∷◌, ◌++◌, map, ◌==◌, nat_eq,
  string_eq, if◌then◌else◌, ltb, Eq, refl,
}
use agent_server_platform.Base.Dict.{Dict, lookup, insert}
use agent_server_platform.Database.Query.{find_by_criteria, column_is}

-- What an agent answers, as far as the program reads it.
pub record Result : Type 0 where
  pub success : Option Bool
  pub output : Option String
  pub error : Option String
  pub role : Option String

-- The context of a task, as far as the program reads it.
pub record Context : Type 0 where
  pub role : Option String
  pub system_prompt : Option String
  pub server_id : Option String
  pub question : Option String
  pub upstream_results : Option (Dict String Result)
  pub upstream_outputs : Option (List String)

pub record TaskMessage : Type 0 where
  pub task_id : String
  pub parent_task_id : String
  pub goal : String
  pub context : Context

pub record ReplyMessage : Type 0 where
  pub task_id : String
  pub success : Bool
  pub result : Result

-- The JSON text of a row's content by its value; `unreadable` is a text that does not parse.
pub data Content : Type 0 where
  task : TaskMessage → Content
  reply_of : ReplyMessage → Content
  unreadable : Content

pub data MessageType : Type 0 where
  dispatch reply : MessageType

unfoldable pub message_type-discrete : Discrete MessageType
message_type-discrete dispatch dispatch = yes refl
message_type-discrete dispatch reply = no (λ e. cc)
message_type-discrete reply dispatch = no (λ e. cc)
message_type-discrete reply reply = yes refl

instance unfoldable pub message_type_eq : Eq MessageType
message_type_eq = record { dec = message_type-discrete }

pub record Message : Type 0 where
  pub id : ℕ
  pub scenario_id : Option String
  pub task_id : String
  pub from_agent : String
  pub to_agent : String
  pub message_type : MessageType
  pub content : Content
  pub timestamp : ℕ
  pub acked : Option ℕ

-- `ORDER BY id ASC`
abbrev pub earlier : Message → Message → Bool
earlier m n = ltb m.id n.id

-- `BaseRepository.create`; the row's id is the one that the database gives it.
abbrev pub create : Message → List Message → List Message
create m rows = rows ++ m ∷ []

-- `acked IS NULL OR acked = 0`
abbrev pub is_unacked : Message → Bool
is_unacked m = elim m.acked [ none ↦ true | some n ↦ n == 0 ]

unfoldable pub find_unacked_dispatch : ℕ → List Message → List Message
unfolding find_by_criteria
find_unacked_dispatch limit rows =
    find_by_criteria (λ m. (m.message_type == MessageType.dispatch) && is_unacked m) earlier
      (some limit) rows

abbrev pub set_acked : ℕ → Message → Message
set_acked message_id m = if m.id == message_id then record m { acked = some 1 } else m

unfoldable pub ack_message : ℕ → List Message → List Message
ack_message message_id rows = map (set_acked message_id) rows

unfoldable pub max_message_id : List Message → ℕ
max_message_id [] = 0
max_message_id (m ∷ rows) = let top = max_message_id rows in if ltb top m.id then m.id else top

abbrev pub Offsets : Type 0
Offsets = Dict String ℕ

unfoldable pub get_offset : String → Offsets → ℕ
get_offset consumer_id offsets = elim (lookup consumer_id offsets) [ none ↦ 0 | some n ↦ n ]

-- An upsert: the row of the consumer is changed where there is one, else it is created.
unfoldable pub update_offset : String → ℕ → Offsets → Offsets
update_offset consumer_id message_id offsets = insert consumer_id message_id offsets

-- The rows after an offset, of one scenario and one type.
abbrev pub is_pending : ℕ → String → MessageType → Message → Bool
is_pending offset scenario_id message_type m =
    column_is scenario_id m.scenario_id && (m.message_type == message_type) && ltb offset m.id

unfoldable pub find_pending_messages :
    String → String → MessageType → ℕ → Offsets → List Message → List Message
unfolding find_by_criteria
find_pending_messages consumer_id scenario_id message_type limit offsets rows =
    find_by_criteria (is_pending (get_offset consumer_id offsets) scenario_id message_type) earlier
      (some limit) rows

unfoldable pub find_pending_dispatch_global : String → ℕ → Offsets → List Message → List Message
unfolding find_by_criteria
find_pending_dispatch_global consumer_id limit offsets rows =
    find_by_criteria
      (λ m. (m.message_type == MessageType.dispatch) && ltb (get_offset consumer_id offsets) m.id)
      earlier (some limit) rows
