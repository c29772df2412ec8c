-- ===== src/Dispatcher/Samples.antt =====
-- A job parked for a server that is away, its server's return, and a local run.
use agent_server_platform.Base.{
  ℕ, length, ◌+◌, String, ◌≡◌, refl, ◌≢◌, ap, true, none, some, [], ◌∷◌, arith, string_eq, contains,
  count as occurrences,
}
use text.Mathlib.TextLemmas.{length-append}
use Prim.Native.String.{count}
use agent_server_platform.StateMachine.{TaskState, TaskState-discrete, is_terminal}
use agent_server_platform.Database.Tasks.{Task}
use agent_server_platform.Database.Tasks.Update.{find}
use agent_server_platform.Database.Messages.{Result, TaskMessage}
use agent_server_platform.MessageQueue.{dispatch_row}
use agent_server_platform.Dispatcher.{Stamp, Tables, Answer, raised, run_task_locally}
use agent_server_platform.Dispatcher.Rows.{state_of, run_task_locally-state_of}
use agent_server_platform.Dispatcher.Hub.{
  Job, Hub, bad_mark, read_task, take_up, dispatch_one, on_register,
}
use agent_server_platform.Dispatcher.Steps.{
  consumed, dispatched, registered, Steps, stay, then_step,
}
use agent_server_platform.Dispatcher.Holders.{IsHeldOnce, Steps-IsHeldOnce}

abbrev message : TaskMessage
message = record {
  task_id = "a";
  parent_task_id = "p";
  goal = "g";
  context = record {
    role = none;
    system_prompt = none;
    server_id = some "s";
    question = none;
    upstream_results = none;
    upstream_outputs = none;
  };
}

abbrev row : Task
row = record {
  id = 1;
  task_id = "a";
  agent_run_id = none;
  scenario_id = some "sc";
  parent_task_id = some "p";
  topic_id = none;
  idempotency_key = none;
  depends_on = none;
  goal = "g";
  state = TaskState.pending;
  priority = none;
  timeout_seconds = none;
  max_retries = none;
  retry_count = none;
  context = none;
  result = none;
  error = none;
  agent_name = none;
  agent_role = none;
  execution_duration = none;
  created_at = 5;
  updated_at = none;
  started_at = none;
  completed_at = none;
}

abbrev tables : Tables
tables = record { tasks = row ∷ []; messages = dispatch_row 1 6 "sc" message ∷ [] }

abbrev idle : Hub
idle = record {
  tables = tables;
  in_flight = [];
  submitted = [];
  scheduled = [];
  awaiting = [];
  deferred = [];
  connections = [];
  pending = [];
  task_server = [];
  futures = [];
}

abbrev stamp : Stamp
stamp = record { now = 10; row_id = 2; duration = 1 }

abbrev dumps : Result → String
dumps _ = "{}"

abbrev agent : String → TaskMessage → Answer
agent _ _ = raised "no model"

abbrev job : Job
job = record { scenario_id = some "sc"; msg = message; dispatch_id = some 1 }

abbrev queued : Hub
queued = take_up (dispatch_row 1 6 "sc" message) idle

abbrev parked : Hub
parked = dispatch_one dumps agent true stamp job (record queued { submitted = [] })

proper : (n : ℕ) → "a" ≢ bad_mark n
unfolding bad_mark
proper n e = absurd (omega (arith, ap count e, length-append "__bad_" _))

path : Steps dumps agent true idle (on_register "s" 7 parked)
unfolding take_up string_eq read_task contains
path =
    then_step idle parked _
      (then_step idle queued _
        (then_step idle idle _ (stay idle) (consumed idle (dispatch_row 1 6 "sc" message)))
        (dispatched queued stamp [] [] job refl))
      (registered parked "s" 7)

Steps-IsHeldOnce_example : IsHeldOnce "a" (on_register "s" 7 parked)
unfolding occurrences
Steps-IsHeldOnce_example =
    Steps-IsHeldOnce dumps agent true "a" proper idle (on_register "s" 7 parked) path
      (refl, omega arith)

run_task_locally-state_of_example :
    let after = run_task_locally dumps agent stamp (some "sc") message tables in
    (state_of "a" after.tasks ≡ some TaskState.failed) × (length after.messages ≡ 1 + 1)
unfolding find string_eq is_terminal TaskState-discrete
run_task_locally-state_of_example =
    run_task_locally-state_of dumps agent stamp (some "sc") message tables row (tt, tt) refl
