-- ===== src/ScenarioManager.antt =====
-- src/scenarios/scenario_manager.py: creating, editing and starting a scenario. Calls about one
-- scenario follow each other; the thread that runs a scenario is the caller of
-- `Execution.execute_scenario`. Clock readings and ids are arguments.
pub mod Starting
pub mod Release
pub mod Execution
pub mod Recovery
mod Samples
use agent_server_platform.Base.{
  ℕ, ◌+◌, String, ◌<>◌, Bool, true, false, Option, none, some, List, [], ◌∷◌, ◌++◌, map, ◌==◌,
  string_eq, if◌then◌else◌,
}
use agent_server_platform.Base.Dict.{insert}
use agent_server_platform.StateMachine.{
  ScenarioState, scenario_state_eq, can_transition, scenario_machine,
}
use agent_server_platform.Database.Tasks.{Timestamp, instant}
use agent_server_platform.Database.Table.{update}
use agent_server_platform.Database.Agents.{Agent, AgentConfig, create}
use agent_server_platform.Database.Scenarios.{
  Json, value, malformed, Declared, agent, other, AgentRoles, Config, empty_config, ScenarioContext,
  Scenario, scenario_model, find_by_scenario_id, find_all, update_scenario_state,
}
use agent_server_platform.Platform.{
  Platform, emit, scenario_created, scenario_updated, scenario_started,
}

-- A call returns a bool or raises.
pub data Answer : Type 0 where
  returned : Bool → Answer
  raised : Answer

-- The arguments of `create_scenario`.
pub record Request : Type 0 where
  pub scenario_type : String
  pub name : String
  pub description : String
  pub config : Option Config
  pub created_by : Option ℕ

-- The database id of a row, its uuid and its trace's uuid.
pub record Ids : Type 0 where
  pub row_id : ℕ
  pub scenario_id : String
  pub trace_id : String

-- `config or {}`
abbrev pub or_empty : Option Config → Config
or_empty none = empty_config
or_empty (some c) = c

abbrev pub new_scenario : ℕ → Ids → Request → Scenario
new_scenario now ids request = record {
  id = ids.row_id;
  scenario_id = ids.scenario_id;
  scenario_type = request.scenario_type;
  name = request.name;
  description = some request.description;
  state = ScenarioState.initializing;
  config = some (value (or_empty request.config));
  context = some (value (record { trace_id = some ids.trace_id }));
  created_by = request.created_by;
  created_at = now;
  updated_at = some (instant now);
  started_at = none;
  completed_at = none;
}

unfoldable pub create_scenario : ℕ → Ids → Request → Platform → Platform × String
create_scenario now ids request p = (
  emit (scenario_created ids.scenario_id request.scenario_type request.name)
      (record p { scenarios = p.scenarios ++ new_scenario now ids request ∷ [] }),
  ids.scenario_id,
)

-- The arguments of `update_scenario` that may be None.
pub record Edit : Type 0 where
  pub name : Option String
  pub description : Option String
  pub config : Option Config
  pub scenario_type : Option String

-- `if x is not None: column = x`
abbrev pub given {ℓ} : {A : Type ℓ} → Option A → A → A
given none old = old
given (some new) old = new

abbrev pub edited : ℕ → Edit → Scenario → Scenario
edited now edit s = record s {
  scenario_type = given edit.scenario_type s.scenario_type;
  name = given edit.name s.name;
  description = elim edit.description [ none ↦ s.description | some d ↦ some d ];
  config = elim edit.config [ none ↦ s.config | some c ↦ some (value c) ];
  updated_at = some (instant now);
}

unfoldable pub update_scenario : ℕ → String → Edit → Platform → Platform × Bool
update_scenario now scenario_id edit p = elim (find_by_scenario_id scenario_id p.scenarios) [
  | none ↦ (p, false)
  | some s ↦
      let (rows, ok) = update scenario_model now (edited now edit s) p.scenarios in
      (
        emit (scenario_updated scenario_id (edited now edit s).name)
            (record p { scenarios = rows }),
        ok,
      )
]

-- `json.loads(x) if x else {}`, with none where it raises.
abbrev pub loads : {A : Type 0} → A → Option (Json A) → Option A
loads empty none = some empty
loads empty (some (value a)) = some a
loads empty (some malformed) = none

abbrev pub no_context : ScenarioContext
no_context = record { trace_id = none }

-- `x or d` on a text: a missing one and the empty one are both replaced.
abbrev pub or_text : Option String → String → String
or_text none d = d
or_text (some s) d = if s == "" then d else s

-- A value of a dict that is only copied where it is truthy.
abbrev pub if_truthy : Option String → Option String
if_truthy none = none
if_truthy (some s) = if s == "" then none else some s

-- The declared agents: their type, name and configuration.
unfoldable pub declared_executions : List Declared → List (String × (String × AgentConfig))
declared_executions [] = []
declared_executions (agent name role server_id ∷ ds) =
    (
      "execution",
      (
        or_text name (or_text role "执行Agent"),
        record { role = or_text role ""; server_id = if_truthy server_id },
      ),
    )
    ∷ declared_executions ds
declared_executions (other ∷ ds) = declared_executions ds

-- `(config or {}).get("agent_roles") or {}`
abbrev pub no_roles : AgentRoles
no_roles = record { scheduling_role = none; execution_agents = [] }

unfoldable pub declared_agents : Config → List (String × (String × AgentConfig))
unfolding declared_executions
declared_agents config =
    let roles = given config.agent_roles no_roles in
    (
      "scheduling",
      ("调度Agent", record { role = or_text roles.scheduling_role "任务调度专家"; server_id = none }),
    )
    ∷ declared_executions roles.execution_agents

-- `uuids n` is the `uuid4` of the row with database id `n`; the first new row gets `row_id`.
module _ (uuids : ℕ → String) (now : ℕ) (scenario_id : String) where
  abbrev pub declared_row : ℕ → String × (String × AgentConfig) → Agent
  declared_row row_id (agent_type, (name, config)) = record {
    id = row_id;
    agent_id = uuids row_id;
    scenario_id = some scenario_id;
    agent_type = agent_type;
    name = name;
    description = "";
    config = config;
    status = "active";
    created_at = now;
    updated_at = some (instant now);
  }

  unfoldable pub create_declared :
      ℕ → List (String × (String × AgentConfig)) → List Agent → List Agent
  create_declared row_id [] rows = rows
  create_declared row_id (d ∷ ds) rows =
      create_declared (row_id + 1) ds (create (declared_row row_id d) rows)

  -- `_register_declared_agents`
  unfoldable pub register_declared_agents : ℕ → Config → List Agent → List Agent
  unfolding create_declared declared_agents
  register_declared_agents row_id config rows = create_declared row_id (declared_agents config) rows

  -- What `start_scenario` does once the machine allows it, up to the start of the thread. The
  -- configuration that the thread is given comes with the answer.
  unfoldable pub launch : ℕ → ℕ → Scenario → Platform → Platform × (Answer × Option Config)
  unfolding update_scenario_state register_declared_agents
  launch row_id instance_id s p =
      let running = record p {
        scenarios = (update_scenario_state now scenario_id ScenarioState.running p.scenarios).0;
        active_scenarios = insert scenario_id instance_id p.active_scenarios;
      } in
      elim (loads no_context s.context) [
        | none ↦ (running, (raised, none))
        | some _ ↦ elim (loads (or_empty none) s.config) [
          | none ↦ (running, (raised, none))
          | some config ↦ (
            emit (scenario_started scenario_id)
                (record running { agents = register_declared_agents row_id config p.agents }),
            (returned true, some config),
          )
        ]
      ]

  unfoldable pub start_scenario : ℕ → ℕ → Platform → Platform × (Answer × Option Config)
  unfolding launch can_transition
  start_scenario row_id instance_id p = elim (find_by_scenario_id scenario_id p.scenarios) [
    | none ↦ (p, (returned false, none))
    | some s ↦
        let launched = launch row_id instance_id s p in
        if can_transition (scenario_machine s.state) ScenarioState.running
        then launched
        else (p, (returned false, none))
  ]

-- What `get_scenario_status` and `list_scenarios` show of a row.
pub record Summary : Type 0 where
  pub scenario_id : String
  pub scenario_type : String
  pub name : String
  pub state : ScenarioState
  pub created_at : ℕ

pub record Status : Type 0 where
  pub summary : Summary
  pub config : Config
  pub started_at : Option Timestamp
  pub completed_at : Option Timestamp

unfoldable pub summary_of : Scenario → Summary
summary_of s = record {
  scenario_id = s.scenario_id;
  scenario_type = s.scenario_type;
  name = s.name;
  state = s.state;
  created_at = s.created_at;
}

-- `get_scenario_status`; `some none` is an error on a configuration that cannot be read.
unfoldable pub get_scenario_status : String → Platform → Option (Option Status)
unfolding summary_of
get_scenario_status scenario_id p = elim (find_by_scenario_id scenario_id p.scenarios) [
  | none ↦ none
  | some s ↦ some (elim (loads (or_empty none) s.config) [
    | none ↦ none
    | some config ↦ some (record {
      summary = summary_of s;
      config = config;
      started_at = s.started_at;
      completed_at = s.completed_at;
    })
  ])
]

unfoldable pub list_scenarios : ℕ → Platform → List Summary
unfolding summary_of find_all
list_scenarios limit p = map summary_of (find_all limit p.scenarios)
