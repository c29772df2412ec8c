-- ===== src/Platform.antt =====
-- The state that src/scenarios/scenario_manager.py and src/agents/agent_manager.py share: the tables,
-- the registries that the two managers keep in memory, and what they have sent out.
use agent_server_platform.Base.{
  ℕ, String, ◌≡◌, refl, Bool, true, false, List, [], ◌∷◌, ◌++◌, if◌then◌else◌,
}
use agent_server_platform.Base.Dict.{Dict}
use agent_server_platform.Database.Tasks.{Task}
use agent_server_platform.Database.Messages.{Offsets}
use agent_server_platform.Database.Agents.{Agent}
use agent_server_platform.Database.Scenarios.{Scenario}
use agent_server_platform.Agents.{AgentRun}

-- The events that the managers emit, without their trace ids and the agents' results.
pub data Notice : Type 0 where
  scenario_created : (scenario_id scenario_type name : String) → Notice
  scenario_updated : (scenario_id name : String) → Notice
  scenario_started scenario_completed scenario_stopped : (scenario_id : String) → Notice
  scenario_failed : (scenario_id error : String) → Notice
  agents_released : (scenario_id : String) (released_runs cancelled_tasks : ℕ) → Notice
  orphans_marked : (scenarios tasks : ℕ) → Notice
  task_submitted : (task_id goal agent_type : String) → Notice
  task_started task_completed : (task_id : String) → Notice
  task_failed : (task_id error : String) → Notice
  topic_completed : (topic_id : String) (total_subtasks success_count failed_count : ℕ) → Notice

-- A scenario instance is named by a number; `cleaned` has the runs whose agent was told to clean up.
pub record Platform : Type 0 where
  pub scenarios : List Scenario
  pub tasks : List Task
  pub agents : List Agent
  pub offsets : Offsets
  pub agent_runs : Dict String AgentRun
  pub active_scenarios : Dict String ℕ
  pub cleaned : List AgentRun
  pub emitted : List Notice

-- `event_bus.emit`
abbrev pub emit : Notice → Platform → Platform
emit notice p = record p { emitted = p.emitted ++ notice ∷ [] }

-- An event that is only emitted under a condition changes no row.
pub emit_if-tasks :
    (b : Bool) (n : Notice) (p : Platform) → (if b then emit n p else p).tasks ≡ p.tasks
emit_if-tasks true n p = refl
emit_if-tasks false n p = refl

pub emit_if-scenarios :
    (b : Bool) (n : Notice) (p : Platform) → (if b then emit n p else p).scenarios ≡ p.scenarios
emit_if-scenarios true n p = refl
emit_if-scenarios false n p = refl

pub emit_if-offsets :
    (b : Bool) (n : Notice) (p : Platform) → (if b then emit n p else p).offsets ≡ p.offsets
emit_if-offsets true n p = refl
emit_if-offsets false n p = refl

pub emit_if-active_scenarios :
    (b : Bool) (n : Notice) (p : Platform)
    → (if b then emit n p else p).active_scenarios ≡ p.active_scenarios
emit_if-active_scenarios true n p = refl
emit_if-active_scenarios false n p = refl
