-- ===== src/Pages/History.antt =====
-- `build_message_history` of src/pages/scenario_dashboard/export_html.py: the timeline of a scenario from
-- its messages and events. Times are numbers; `parse` is `json.loads` of an event's data, with none
-- where it raises.
pub mod Roles
mod Samples
use agent_server_platform.Base.{
  ℕ, String, ◌<>◌, Bool, true, false, Option, none, some, List, [], ◌∷◌, ◌++◌, map, ◌==◌, string_eq,
  if◌then◌else◌, ltb,
}
use agent_server_platform.Base.Dict.{Dict, lookup, insert}
use agent_server_platform.Database.Query.{find_by_criteria, column_is}
use agent_server_platform.Database.Messages.{
  Result, Context, TaskMessage, ReplyMessage, Content, task, reply_of, unreadable, MessageType,
  Message,
}
use agent_server_platform.EventBus.{Event}
use agent_server_platform.Pages.Values.{
  Value, null, array, object, end, is_truthy, translated, joined, event_data_summary,
}

pub data Kind : Type 0 where
  dispatch reply event : Kind

pub data Detail : Type 0 where
  dispatched : (goal role question : String) → Detail
  replied : (output : String) (success : Option Bool) (role : String) → Detail
  happened : (event_type : String) (data_value : Option Value) → Detail

pub record Entry : Type 0 where
  pub time : ℕ
  pub type : String
  pub kind : Kind
  pub sender : String
  pub receiver : String
  pub content : String
  pub detail : Detail

-- `MessageRepository.find_by_scenario_id` and `EventRepository.find_by_trace_id`: newest first.
unfoldable pub messages_of : String → ℕ → List Message → List Message
unfolding find_by_criteria
messages_of scenario_id limit rows =
    let found =
      find_by_criteria (λ m. column_is scenario_id m.scenario_id)
        (λ m n. ltb n.timestamp m.timestamp) (some limit) rows in
    if scenario_id == "" then [] else found

unfoldable pub find_by_trace_id : String → ℕ → List Event → List Event
unfolding find_by_criteria
find_by_trace_id trace_id limit rows =
    let found =
      find_by_criteria (λ e. e.trace_id == trace_id) (λ e f. ltb f.timestamp e.timestamp)
        (some limit) rows in
    if trace_id == "" then [] else found

-- `(parsed or {}).get(key, d)` on the keys that are read.
abbrev pub or_text : Option String → String → String
or_text none d = d
or_text (some s) d = s

abbrev pub role_in : Content → Option String
role_in (task t) = t.context.role
role_in (reply_of r) = none
role_in unreadable = none

abbrev pub question_in : Content → String
question_in (task t) = or_text t.context.question ""
question_in (reply_of r) = ""
question_in unreadable = ""

abbrev pub goal_in : Content → String
goal_in (task t) = t.goal
goal_in (reply_of r) = ""
goal_in unreadable = ""

abbrev pub task_in : Content → String
task_in (task t) = t.task_id
task_in (reply_of r) = r.task_id
task_in unreadable = ""

abbrev pub output_in : Content → String
output_in (task t) = ""
output_in (reply_of r) = or_text r.result.output ""
output_in unreadable = ""

abbrev pub success_in : Content → Option Bool
success_in (task t) = none
success_in (reply_of r) = some r.success
success_in unreadable = none

-- `task_role[tid] = role` for a dispatch that has both.
unfoldable pub noted :
    MessageType → (task_id role : String) → Dict String String → Dict String String
unfolding insert
noted MessageType.reply k r roles = roles
noted MessageType.dispatch k r roles =
    if k == "" then roles else if r == "" then roles else insert k r roles

unfoldable pub note_role : Message → Dict String String → Dict String String
unfolding noted
note_role m roles = noted m.message_type (task_in m.content) (or_text (role_in m.content) "") roles

-- The first pass, in the order of the messages.
unfoldable pub task_roles : List Message → Dict String String → Dict String String
unfolding note_role
task_roles [] roles = roles
task_roles (m ∷ ms) roles = task_roles ms (note_role m roles)

unfoldable pub dispatch_entry : Message → Entry
dispatch_entry m =
    let goal = goal_in m.content in
    let role = or_text (role_in m.content) "执行Agent" in
    record {
      time = m.timestamp;
      type = "任务派发";
      kind = dispatch;
      sender = "调度Agent";
      receiver = role;
      content = if goal == "" then "任务派发" else "目标：" <> goal;
      detail = dispatched goal role (question_in m.content);
    }

unfoldable pub reply_entry : Dict String String → Message → Entry
unfolding lookup
reply_entry roles m =
    let role = or_text (lookup (task_in m.content) roles) "执行Agent" in
    let output = output_in m.content in
    record {
      time = m.timestamp;
      type = "执行回复";
      kind = reply;
      sender = role;
      receiver = "调度Agent";
      content = if output == "" then "（无回复内容）" else output;
      detail = replied output (success_in m.content) role;
    }

unfoldable pub message_entry : Dict String String → Message → Entry
unfolding dispatch_entry reply_entry
message_entry roles m = elim m.message_type [
  | MessageType.dispatch ↦ dispatch_entry m
  | MessageType.reply ↦ reply_entry roles m
]

-- `_event_type_zh`; `segments` is the type's text split at its dots.
abbrev pub event_type_zh :
    Dict String String → Dict String String → (String → List String) → String → String
unfolding lookup
event_type_zh types names segments event_type =
    let parts = joined "·" (map (translated names) (segments event_type)) in
    let known = elim (lookup event_type types) as (λ o. String) [ none ↦ parts | some t ↦ t ] in
    if event_type == "" then "事件" else known

abbrev pub data_content : Option Value → String → String
unfolding event_data_summary
data_content none raw = raw
data_content (some (object fs)) raw = if is_truthy (object fs) then event_data_summary fs else raw
data_content (some v) raw = if is_truthy v then "" else raw

module _ (type_zh : String → String) (parse : String → Option Value) where
  abbrev pub event_entry : Event → Entry
  unfolding data_content
  event_entry e = record {
    time = e.timestamp;
    type = type_zh e.event_type;
    kind = event;
    sender = "系统";
    receiver = "—";
    content = data_content (parse e.data_text) e.data_text;
    detail = happened e.event_type (parse e.data_text);
  }

  unfoldable pub build_message_history : String → String → List Message → List Event → List Entry
  unfolding messages_of find_by_trace_id task_roles message_entry event_entry
  build_message_history scenario_id trace_id messages events =
      let found = messages_of scenario_id 500 messages in
      map (message_entry (task_roles found [])) found
      ++ map event_entry (find_by_trace_id trace_id 200 events)
