-- ===== src/Database/Scenarios.antt =====
-- src/database/models/scenario.py and src/database/repositories/scenario_repository.py over the
-- inherited methods of base_repository.py. The `state` column holds the value of a `ScenarioState`;
-- the JSON columns are modelled by their values, with `none` for NULL and for the empty text.
pub mod Writers
use agent_server_platform.Base.{
  ℕ, ◌+◌, String, Bool, Option, none, some, List, ◌==◌, string_eq, if◌then◌else◌, ltb,
}
use agent_server_platform.StateMachine.{ScenarioState, scenario_state_eq}
use agent_server_platform.Database.Query.{find_by_criteria, column_is, limited, sort_by}
use agent_server_platform.Database.Tasks.{Timestamp, instant, or_stored}
use agent_server_platform.Database.Table.{Model, find_by_key, modify}

-- A JSON text by its value; `malformed` is a text on which `json.loads` raises.
pub data Json (A : Type 0) : Type 0 where
  value : A → Json A
  malformed : Json A

-- A declared execution agent; an entry of the list that is not a dict is `other`.
pub data Declared : Type 0 where
  agent : (name role server_id : Option String) → Declared
  other : Declared

pub record AgentRoles : Type 0 where
  pub scheduling_role : Option String
  pub execution_agents : List Declared

-- A scenario's configuration, as far as the program reads it.
pub record Config : Type 0 where
  pub agent_roles : Option AgentRoles
  pub question : Option String
  pub script : Option String
  pub code : Option String
  pub timeout : Option ℕ

-- `{}`
abbrev pub empty_config : Config
empty_config = record {
  agent_roles = none;
  question = none;
  script = none;
  code = none;
  timeout = none;
}

pub record ScenarioContext : Type 0 where
  pub trace_id : Option String

pub record Scenario : Type 0 where
  pub id : ℕ
  pub scenario_id : String
  pub scenario_type : String
  pub name : String
  pub description : Option String
  pub state : ScenarioState
  pub config : Option (Json Config)
  pub context : Option (Json ScenarioContext)
  pub created_by : Option ℕ
  pub created_at : ℕ
  pub updated_at : Option Timestamp
  pub started_at : Option Timestamp
  pub completed_at : Option Timestamp

-- `__default_order__ = "created_at DESC"`
abbrev pub newer : Scenario → Scenario → Bool
newer s t = ltb t.created_at s.created_at

-- A present `updated_at` is set to the current time.
abbrev pub stamped : ℕ → Scenario → Scenario
stamped now s = record s {
  updated_at = elim s.updated_at [ none ↦ none | some _ ↦ some (instant now) ];
}

-- What `UPDATE scenarios SET ... WHERE id = ?` with the columns of `entity.to_dict()` makes of a row.
abbrev pub overlay : Scenario → Scenario → Scenario
overlay entity row = record {
  id = row.id;
  scenario_id = entity.scenario_id;
  scenario_type = entity.scenario_type;
  name = entity.name;
  description = or_stored entity.description row.description;
  state = entity.state;
  config = or_stored entity.config row.config;
  context = or_stored entity.context row.context;
  created_by = or_stored entity.created_by row.created_by;
  created_at = entity.created_at;
  updated_at = or_stored entity.updated_at row.updated_at;
  started_at = or_stored entity.started_at row.started_at;
  completed_at = or_stored entity.completed_at row.completed_at;
}

abbrev pub scenario_model : Model Scenario
scenario_model = record {
  id_of = λ s. s.id;
  key_of = λ s. s.scenario_id;
  earlier = newer;
  stamped = stamped;
  overlay = overlay;
}

abbrev pub find_by_scenario_id : String → List Scenario → Option Scenario
find_by_scenario_id = find_by_key scenario_model

unfoldable pub find_by_state : ScenarioState → List Scenario → List Scenario
unfolding find_by_criteria
find_by_state state rows = find_by_criteria (λ s. s.state == state) newer none rows

unfoldable pub find_by_type : String → List Scenario → List Scenario
unfolding find_by_criteria
find_by_type scenario_type rows =
    find_by_criteria (λ s. s.scenario_type == scenario_type) newer none rows

-- `find_all(limit=limit)`
unfoldable pub find_all : ℕ → List Scenario → List Scenario
find_all limit rows = limited (some limit) (sort_by newer rows)

abbrev pub set_state : ℕ → ScenarioState → Scenario → Scenario
set_state now new_state s = record s { state = new_state; updated_at = some (instant now) }

unfoldable pub update_scenario_state :
    ℕ → String → ScenarioState → List Scenario → List Scenario × Bool
update_scenario_state now scenario_id new_state =
    modify scenario_model now scenario_id (set_state now new_state)

abbrev pub started : ℕ → Scenario → Scenario
started now s = record s {
  state = ScenarioState.running;
  started_at = some (instant now);
  updated_at = some (instant now);
}

unfoldable pub mark_as_started : ℕ → String → List Scenario → List Scenario × Bool
mark_as_started now scenario_id = modify scenario_model now scenario_id (started now)

-- The columns of a scenario that has ended in a state.
abbrev pub ended : ℕ → ScenarioState → Scenario → Scenario
ended now final_state s = record s {
  state = final_state;
  completed_at = some (instant now);
  updated_at = some (instant now);
}

unfoldable pub mark_as_completed : ℕ → String → List Scenario → List Scenario × Bool
mark_as_completed now scenario_id =
    modify scenario_model now scenario_id (ended now ScenarioState.completed)

unfoldable pub mark_as_failed : ℕ → String → List Scenario → List Scenario × Bool
mark_as_failed now scenario_id =
    modify scenario_model now scenario_id (ended now ScenarioState.failed)
