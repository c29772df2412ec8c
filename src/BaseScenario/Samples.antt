-- ===== src/BaseScenario/Samples.antt =====
-- A scenario that waits for a task which ends at the third poll, and the theorem at it.
use agent_server_platform.Base.{
  String, ◌≡◌, refl, Option, none, some, List, [], ◌∷◌, ◌++◌, select, contains, string_eq,
}
use agent_server_platform.StateMachine.{TaskState, TaskState-discrete, is_terminal}
use agent_server_platform.Database.Query.{limited, sort_by}
use agent_server_platform.Database.Tasks.{Task, instant, find_by_task_id}
use agent_server_platform.BaseScenario.{answered, wait_for_task}
use agent_server_platform.BaseScenario.Waiting.{first_over, IsAnswer, wait_for_task-IsAnswer}

abbrev loads : String → Option String
loads text = some text

abbrev task : TaskState → Option String → Task
task state result = record {
  id = 1;
  task_id = "t";
  agent_run_id = none;
  scenario_id = some "s";
  parent_task_id = none;
  topic_id = none;
  idempotency_key = none;
  depends_on = none;
  goal = "g";
  state = state;
  priority = some 0;
  timeout_seconds = some 60;
  max_retries = some 2;
  retry_count = some 0;
  context = none;
  result = result;
  error = none;
  agent_name = none;
  agent_role = none;
  execution_duration = none;
  created_at = 1;
  updated_at = some (instant 0);
  started_at = none;
  completed_at = none;
}

abbrev waiting : List (List Task)
waiting = [] ∷ (task TaskState.running none ∷ []) ∷ []

abbrev over : Task
over = task TaskState.success (some "r")

told :
    wait_for_task loads "t" (waiting ++ (over ∷ []) ∷ [])
    ≡ answered TaskState.success (some "r") none
unfolding wait_for_task find_by_task_id is_terminal limited sort_by select contains string_eq
    TaskState-discrete
told = refl

wait_for_task-IsAnswer_example :
    IsAnswer loads
      (first_over "t" (waiting ++ (over ∷ []) ∷ []))
      (wait_for_task loads "t" (waiting ++ (over ∷ []) ∷ []))
wait_for_task-IsAnswer_example = wait_for_task-IsAnswer loads "t" (waiting ++ (over ∷ []) ∷ [])
