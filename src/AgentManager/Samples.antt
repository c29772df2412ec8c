-- ===== src/AgentManager/Samples.antt =====
-- A platform with one submitted task, an agent that fails, and the theorem at it.
use agent_server_platform.Base.{String, ◌≡◌, refl, true, none, [], string_eq}
use agent_server_platform.Base.Dict.{lookup}
use agent_server_platform.Database.Tasks.Update.{IsKeyed}
use agent_server_platform.Database.Messages.{Result}
use agent_server_platform.Database.Scenarios.{Config, empty_config}
use agent_server_platform.Agents.{AgentRun, new_run}
use agent_server_platform.Dispatcher.{Answer, raised}
use agent_server_platform.Platform.{Platform}
use agent_server_platform.AgentManager.{Submission, Ids, RunContext, submit_task, execute_task}
use agent_server_platform.AgentManager.Outcomes.{is_over, execute_task-over}

abbrev empty : Platform
empty = record {
  scenarios = [];
  tasks = [];
  agents = [];
  offsets = [];
  agent_runs = [];
  active_scenarios = [];
  cleaned = [];
  emitted = [];
}

abbrev dumps_context : Config → String
dumps_context c = "{}"

abbrev dumps : Result → String
dumps r = "{}"

abbrev submission : String → Submission
submission agent_type = record {
  goal = "g";
  agent_type = agent_type;
  scenario_id = none;
  priority = 0;
  timeout_seconds = 60;
  context = empty_config;
}

abbrev ids : Ids
ids = record { row_id = 1; task_id = "t"; agent_run_id = "r" }

abbrev submitted : Platform
submitted = (submit_task dumps_context 3 ids (submission "execution") empty).0

abbrev run : AgentRun
run = new_run "ExecutionAgent" "execution" "t" empty_config

-- A task of an unknown type is stored, and no run will ever take it up.
unknown_type : (submit_task dumps_context 3 ids (submission "planner") empty).1 ≡ none
unfolding submit_task lookup string_eq
unknown_type = refl

abbrev failing : String → RunContext → Platform → Platform × Answer
failing k c p = (p, raised "out of memory")

submitted-IsKeyed : IsKeyed submitted.tasks
unfolding submit_task lookup string_eq
submitted-IsKeyed = (tt, tt)

execute_task-over_example :
    is_over "t" (execute_task dumps failing 4 5 "r" run submitted).tasks ≡ true
execute_task-over_example =
    execute_task-over dumps failing 4 5 "r" run submitted submitted-IsKeyed (λ c q h. h)
