-- ===== src/ScenarioManager/Samples.antt =====
-- A platform with two scenarios and three tasks, and the theorems at it.
use agent_server_platform.Base.{
  ℕ, String, ◌≡◌, refl, true, none, some, [], ◌∷◌, map, arith, string_eq, nat_eq, if◌then◌else◌,
  ne_of_test, select, contains,
}
use agent_server_platform.Base.Dict.{lookup}
use agent_server_platform.StateMachine.{
  TaskState, ScenarioState, scenario_state_eq, can_transition, scenario_machine,
  scenario_state_machine, initialize, allowed, new, ScenarioState-discrete, task_state_eq,
}
use agent_server_platform.Database.Query.{limited, sort_by, column_is}
use agent_server_platform.Database.Tasks.{Task, instant}
use agent_server_platform.Database.Tasks.Update.{IsKeyed}
use agent_server_platform.Database.Table.{find_by_key}
use agent_server_platform.Database.Table.Keyed as Keyed
use agent_server_platform.Database.Scenarios.{
  value, Config, empty_config, Scenario, scenario_model, find_by_scenario_id, set_state, ended,
}
use agent_server_platform.Platform.{Platform}
use agent_server_platform.ScenarioManager.{returned, launch, start_scenario}
use agent_server_platform.ScenarioManager.Starting.{start_scenario-started}
use agent_server_platform.ScenarioManager.Release.{release_scenario_agents}
use agent_server_platform.ScenarioManager.Release.Tasks.{cancelled, release_scenario_agents-tasks}
use agent_server_platform.ScenarioManager.Execution.{
  Outcome, finished, execute_scenario, stop_scenario,
}
use agent_server_platform.ScenarioManager.Execution.Endings.{
  execute_scenario-scenarios, stop_scenario-scenarios,
}
use agent_server_platform.ScenarioManager.Recovery.{orphan_states, recover_orphans_on_startup}
use agent_server_platform.ScenarioManager.Recovery.Orphans.{
  orphaned, orphaned_scenario, recover_orphans_on_startup-map,
}

abbrev task : ℕ → String → String → TaskState → Task
task id task_id scenario_id state = record {
  id = id;
  task_id = task_id;
  agent_run_id = none;
  scenario_id = some scenario_id;
  parent_task_id = none;
  topic_id = none;
  idempotency_key = none;
  depends_on = none;
  goal = "g";
  state = state;
  priority = some 0;
  timeout_seconds = some 60;
  max_retries = some 3;
  retry_count = some 0;
  context = none;
  result = none;
  error = none;
  agent_name = none;
  agent_role = none;
  execution_duration = none;
  created_at = id;
  updated_at = some (instant 0);
  started_at = none;
  completed_at = none;
}

abbrev scenario : ℕ → String → ScenarioState → Scenario
scenario id scenario_id state = record {
  id = id;
  scenario_id = scenario_id;
  scenario_type = "simple_qa";
  name = "n";
  description = none;
  state = state;
  config = some (value empty_config);
  context = some (value (record { trace_id = some "t" }));
  created_by = none;
  created_at = id;
  updated_at = some (instant 0);
  started_at = none;
  completed_at = none;
}

abbrev platform : Platform
platform = record {
  scenarios = scenario 1 "s" ScenarioState.cancelled ∷ scenario 2 "r" ScenarioState.running ∷ [];
  tasks =
      task 1 "a" "s" TaskState.running
      ∷ task 2 "b" "s" TaskState.success
      ∷ task 3 "c" "r" TaskState.pending
      ∷ [];
  agents = [];
  offsets = ("scheduling_agent:s", 7) ∷ [];
  agent_runs = [];
  active_scenarios = ("r", 5) ∷ [];
  cleaned = [];
  emitted = [];
}

tasks-IsKeyed : IsKeyed platform.tasks
tasks-IsKeyed = (
  ((omega arith, ne_of_test "b" "a" refl), ((omega arith, ne_of_test "c" "a" refl), tt)),
  (((omega arith, ne_of_test "c" "b" refl), tt), (tt, tt)),
)

scenarios-IsKeyed : Keyed.IsKeyed scenario_model platform.scenarios
scenarios-IsKeyed = (((omega arith, ne_of_test "r" "s" refl), tt), (tt, tt))

release_scenario_agents-tasks_example :
    (release_scenario_agents 9 "s" platform).tasks
    ≡ map (λ t. if column_is "s" t.scenario_id then cancelled 9 t else t) platform.tasks
release_scenario_agents-tasks_example = release_scenario_agents-tasks 9 "s" platform tasks-IsKeyed

recover_orphans_on_startup-map_example :
    ((recover_orphans_on_startup 9 platform).scenarios
      ≡ map (orphaned_scenario 9) platform.scenarios)
    × ((recover_orphans_on_startup 9 platform).tasks
        ≡ map (orphaned orphan_states 9) platform.tasks)
recover_orphans_on_startup-map_example =
    recover_orphans_on_startup-map 9 platform scenarios-IsKeyed tasks-IsKeyed

-- A run that returns; the row is `cancelled` when it does.
abbrev quiet_run : Config → Platform → Platform × Outcome
quiet_run config p = (p, finished)

abbrev config : Config
config = empty_config

execute_scenario-scenarios_example :
    ((execute_scenario 9 "s" quiet_run config platform).scenarios
      ≡ map (Keyed.at scenario_model "s" (ended 9 ScenarioState.completed)) platform.scenarios)
    × (lookup "s" (execute_scenario 9 "s" quiet_run config platform).active_scenarios ≡ none)
execute_scenario-scenarios_example =
    execute_scenario-scenarios 9 "s" quiet_run config platform scenarios-IsKeyed

found_s : find_by_scenario_id "s" platform.scenarios ≡ some (scenario 1 "s" ScenarioState.cancelled)
unfolding find_by_key limited sort_by select string_eq
found_s = refl

stop_scenario-scenarios_example :
    ((stop_scenario 9 "s" platform).0.scenarios
      ≡ map (Keyed.at scenario_model "s" (set_state 9 ScenarioState.cancelled)) platform.scenarios)
    × (lookup "s" (stop_scenario 9 "s" platform).0.active_scenarios ≡ none)
    × ((stop_scenario 9 "s" platform).1 ≡ returned true)
stop_scenario-scenarios_example =
    stop_scenario-scenarios 9 "s" platform (scenario 1 "s" ScenarioState.cancelled)
      scenarios-IsKeyed found_s (λ e. cc e)

abbrev uuids : ℕ → String
uuids n = "u"

-- A cancelled scenario is started again.
restarted : (start_scenario uuids 9 "s" 4 6 platform).1.0 ≡ returned true
unfolding start_scenario launch find_by_key limited sort_by select string_eq can_transition allowed
    initialize scenario_state_machine new lookup contains ScenarioState-discrete
restarted = refl

start_scenario-started_example :
    ((s : Scenario) × (find_by_scenario_id "s" platform.scenarios ≡ some s)
      × (can_transition (scenario_machine s.state) ScenarioState.running ≡ true))
    × ((start_scenario uuids 9 "s" 4 6 platform).0.scenarios
        ≡ map (Keyed.at scenario_model "s" (set_state 9 ScenarioState.running)) platform.scenarios)
    × (lookup "s" (start_scenario uuids 9 "s" 4 6 platform).0.active_scenarios ≡ some 6)
start_scenario-started_example =
    start_scenario-started uuids 9 "s" 4 6 platform scenarios-IsKeyed restarted
