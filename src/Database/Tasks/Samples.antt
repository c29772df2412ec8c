-- ===== src/Database/Tasks/Samples.antt =====
-- A table of two rows, and its writers.
use agent_server_platform.Base.{
  ℕ, String, ◌≡◌, refl, none, some, List, [], ◌∷◌, map, string_eq, ne_of_test, arith,
}
use agent_server_platform.StateMachine.{TaskState}
use agent_server_platform.Database.Tasks.{Task, Completion, set_state, update_task_state}
use agent_server_platform.Database.Tasks.Update.{IsKeyed, find, at, is_found, update_task_state-at}

abbrev row : ℕ → String → Task
row id task_id = record {
  id = id;
  task_id = task_id;
  agent_run_id = none;
  scenario_id = none;
  parent_task_id = none;
  topic_id = none;
  idempotency_key = none;
  depends_on = none;
  goal = "g";
  state = TaskState.running;
  priority = none;
  timeout_seconds = none;
  max_retries = none;
  retry_count = none;
  context = none;
  result = some "old";
  error = none;
  agent_name = none;
  agent_role = none;
  execution_duration = none;
  created_at = 5;
  updated_at = none;
  started_at = none;
  completed_at = none;
}

abbrev rows : List Task
rows = row 1 "a" ∷ row 2 "b" ∷ []

keyed : IsKeyed rows
keyed = (((λ e. absurd (omega (arith, e)), ne_of_test "b" "a" refl), tt), (tt, tt))

abbrev completion : Completion
completion = record {
  result = none;
  agent_name = some "n";
  agent_role = none;
  execution_duration = none;
}

update_task_state-at_example :
    update_task_state 9 "b" TaskState.cancelled rows
    ≡ (map (at "b" (set_state 9 TaskState.cancelled)) rows, is_found (find "b" rows))
update_task_state-at_example = update_task_state-at 9 "b" rows keyed TaskState.cancelled
