-- ===== src/Dispatcher.antt =====
-- src/core/central_dispatcher.py: what happens to the rows when a task is run and finalized, and how
-- the consumer takes dispatch rows up.
pub mod Hub
pub mod Rows
pub mod Steps
pub mod Holders
mod Samples
use agent_server_platform.Base.{
  ℕ, zero, suc, ◌+◌, String, ◌<>◌, Bool, true, false, not, Option, none, some, List, [], ◌∷◌, ◌++◌,
  ◌==◌, string_eq, if◌then◌else◌, contains, select,
}
use agent_server_platform.StateMachine.{TaskState, task_state_eq, terminal_task_states, is_terminal}
use agent_server_platform.Scheduling.Subtasks.{auto_id}
use agent_server_platform.Database.Tasks.{
  Task, Completion, find_by_task_id, mark_as_started, mark_as_completed, mark_as_failed,
}
use agent_server_platform.Database.Messages.{
  Result, Context, TaskMessage, ReplyMessage, Content, task, reply_of, unreadable, MessageType,
  Message, create, ack_message,
}

-- The clock, the id that the database gives to a row that the step writes, and the run's duration.
pub record Stamp : Type 0 where
  pub now : ℕ
  pub row_id : ℕ
  pub duration : ℕ

-- The tables that the dispatcher writes.
pub record Tables : Type 0 where
  pub tasks : List Task
  pub messages : List Message

-- `agent.run` returns a result or raises.
pub data Answer : Type 0 where
  returned : Result → Answer
  raised : String → Answer

-- `x or d` and `d.get(key, d)` on texts.
abbrev pub or_text : Option String → String → String
or_text none d = d
or_text (some s) d = s

abbrev pub succeeded : Result → Bool
succeeded result = elim result.success [ none ↦ false | some b ↦ b ]

abbrev pub reply_row : Stamp → Option String → String → Result → Message
reply_row stamp scenario_id task_id result = record {
  id = stamp.row_id;
  scenario_id = scenario_id;
  task_id = task_id;
  from_agent = "execution";
  to_agent = "scheduling";
  message_type = MessageType.reply;
  content = reply_of (record { task_id = task_id; success = succeeded result; result = result });
  timestamp = stamp.now;
  acked = none;
}

-- `existing and existing.state in _TERMINAL_TASK_STATES`
unfoldable pub already_terminal : String → List Task → Bool
already_terminal task_id rows = elim (find_by_task_id task_id rows) [
  | none ↦ false
  | some t ↦ is_terminal t.state
]

-- `json.dumps` of a result.
module _ (dumps : Result → String) where
  -- `finalize_task`
  unfoldable pub finalize_task :
      Stamp
      → Option String
      → String
      → Result
      → Option String
      → Option String
      → Option ℕ
      → Tables
      → Tables
  finalize_task stamp scenario_id task_id result agent_name agent_role execution_duration tables =
      let done =
        if succeeded result
        then (mark_as_completed stamp.now task_id
            (record {
              result = some (dumps result);
              agent_name = agent_name;
              agent_role = agent_role;
              execution_duration = execution_duration;
            })
            tables.tasks).0
        else (mark_as_failed stamp.now task_id (or_text result.error "Unknown") tables.tasks).0 in
      record {
        tasks = done;
        messages = create (reply_row stamp scenario_id task_id result) tables.messages;
      }

-- The same, with the agent.
module _ (dumps : Result → String) (agent_run : String → TaskMessage → Answer) where
  -- What follows `agent.run`: its result, or the result that its error is turned into.
  abbrev pub settle : Stamp → Option String → TaskMessage → Answer → Tables → Tables
  settle stamp scenario_id msg (returned result) tables =
      finalize_task dumps stamp scenario_id msg.task_id result (some "ExecutionAgent")
        (some (or_text msg.context.role "通用助手")) (some stamp.duration) tables
  settle stamp scenario_id msg (raised error) tables =
      finalize_task dumps stamp scenario_id msg.task_id
        (record { success = some false; output = some ""; error = some error; role = none }) none
        none none tables

  -- `run_task_locally`: the whole run as one step of the tables.
  unfoldable pub run_task_locally : Stamp → Option String → TaskMessage → Tables → Tables
  run_task_locally stamp scenario_id msg tables =
      let started = record tables {
        tasks = (mark_as_started stamp.now msg.task_id tables.tasks).0;
      } in
      if already_terminal msg.task_id tables.tasks
      then tables
      else settle stamp scenario_id msg (agent_run msg.task_id msg) started
