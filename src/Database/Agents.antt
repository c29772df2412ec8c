-- ===== src/Database/Agents.antt =====
-- src/database/models/agent.py and src/database/repositories/agent_repository.py.
use agent_server_platform.Base.{
  ℕ, String, Bool, not, Option, none, some, List, ◌++◌, ◌∷◌, [], ◌==◌, string_eq, if◌then◌else◌,
  ltb, select, length,
}
use agent_server_platform.Database.Query.{find_by_criteria, column_is}
use agent_server_platform.Database.Tasks.{Timestamp, instant, or_stored}
use agent_server_platform.Database.Table.{Model, find_by_key, modify}

-- The `config` column: the role, and the server where one is given.
pub record AgentConfig : Type 0 where
  pub role : String
  pub server_id : Option String

pub record Agent : Type 0 where
  pub id : ℕ
  pub agent_id : String
  pub scenario_id : Option String
  pub agent_type : String
  pub name : String
  pub description : String
  pub config : AgentConfig
  pub status : String
  pub created_at : ℕ
  pub updated_at : Option Timestamp

-- `__default_order__ = "id DESC"`
abbrev pub latest : Agent → Agent → Bool
latest a b = ltb b.id a.id

abbrev pub agent_model : Model Agent
agent_model = record {
  id_of = λ a. a.id;
  key_of = λ a. a.agent_id;
  earlier = latest;
  stamped = λ now a. record a {
    updated_at = elim a.updated_at [ none ↦ none | some _ ↦ some (instant now) ];
  };
  overlay = λ entity row. record entity {
    id = row.id;
    scenario_id = or_stored entity.scenario_id row.scenario_id;
    updated_at = or_stored entity.updated_at row.updated_at;
  };
}

unfoldable pub create : Agent → List Agent → List Agent
create a rows = rows ++ a ∷ []

abbrev pub find_by_agent_id : String → List Agent → Option Agent
find_by_agent_id = find_by_key agent_model

unfoldable pub find_by_type : String → List Agent → List Agent
unfolding find_by_criteria
find_by_type agent_type rows = find_by_criteria (λ a. a.agent_type == agent_type) latest none rows

unfoldable pub find_by_status : String → List Agent → List Agent
unfolding find_by_criteria
find_by_status status rows = find_by_criteria (λ a. a.status == status) latest none rows

-- `if not scenario_id: return []`
unfoldable pub find_by_scenario_id : String → List Agent → List Agent
unfolding find_by_criteria
find_by_scenario_id scenario_id rows =
    if scenario_id == ""
    then []
    else find_by_criteria (λ a. column_is scenario_id a.scenario_id) latest none rows

-- The rows that are left, and how many were deleted.
unfoldable pub delete_by_scenario_id : String → List Agent → List Agent × ℕ
delete_by_scenario_id scenario_id rows = if scenario_id == "" then (rows, 0) else (
  select (λ a. not (column_is scenario_id a.scenario_id)) rows,
  length (select (λ a. column_is scenario_id a.scenario_id) rows),
)

abbrev pub with_status : String → Agent → Agent
with_status status a = record a { status = status }

unfoldable pub update_status : ℕ → String → String → List Agent → List Agent × Bool
update_status now agent_id status = modify agent_model now agent_id (with_status status)
