-- ===== src/Pages/Dashboard/Form.antt =====
-- The form of src/pages/scenario_dashboard/__init__.py: `create_scenario` reads it, `show_clone_view`
-- fills it.
pub mod Clone
use agent_server_platform.Base.{
  ℕ, zero, suc, ◌-◌, String, ◌<>◌, Bool, true, false, Option, none, some, List, [], ◌∷◌, ◌==◌,
  string_eq, nat_eq, if◌then◌else◌, ltb, contains, length, take,
}
use agent_server_platform.Database.Scenarios.{
  Declared, agent, other, AgentRoles, Config, empty_config, Scenario, find_by_scenario_id, Json,
  value, malformed,
}
use agent_server_platform.Platform.{Platform}
use agent_server_platform.ScenarioManager as Manager
use agent_server_platform.ScenarioManager.{Ids, no_roles, given}
use agent_server_platform.Pages.Dashboard.{scenario_types}

-- One of the ten groups of inputs for an execution agent.
pub record RoleInput : Type 0 where
  pub name : String
  pub role : String
  pub server : String

abbrev pub blank : RoleInput
blank = record { name = ""; role = ""; server = "" }

-- A number input may be empty.
pub record Form : Type 0 where
  pub scenario_type : String
  pub scenario_name : String
  pub scenario_desc : String
  pub scheduling_agent_role : String
  pub execution_roles_count : ℕ
  pub roles : List RoleInput
  pub qa_question : String
  pub qa_timeout : Option ℕ
  pub code_script : String
  pub code_code : String
  pub code_timeout : Option ℕ

-- `x or d`, and `x if x else None`.
abbrev pub or_default : String → String → String
or_default s d = if s == "" then d else s

abbrev pub chosen : String → Option String
chosen s = if s == "" then none else some s

-- `int(t) if t else d`
abbrev pub timeout_or : Option ℕ → ℕ → ℕ
timeout_or none d = d
timeout_or (some t) d = if t == 0 then d else t

abbrev pub default_role : String
default_role = "你是一个任务调度专家，负责分析用户目标，将其分解为可执行的子任务，并协调执行 Agent 完成任务。"

abbrev pub entry_of : RoleInput → Declared
entry_of r = agent (some r.name) (some r.role) (chosen r.server)

-- The loop over the groups that are shown; a group without a name or without a role is left out.
unfoldable pub entries : List RoleInput → List Declared
entries [] = []
entries (r ∷ rs) =
    let rest = entries rs in
    if r.name == "" then rest else if r.role == "" then rest else entry_of r ∷ rest

-- `min(execution_roles_count, 10)`
abbrev pub shown_count : ℕ → ℕ
shown_count n = if ltb 10 n then 10 else n

unfoldable pub roles_of : Form → AgentRoles
unfolding entries
roles_of form = record {
  scheduling_role = some (or_default form.scheduling_agent_role default_role);
  execution_agents = entries (take (shown_count form.execution_roles_count) form.roles);
}

-- The configuration of a form, or the complaint.
pub data Built : Type 0 where
  built : Config → Built
  refused : String → Built

abbrev pub build_qa : Form → Config → Built
build_qa form config =
    if form.qa_question == ""
    then refused "❌ 错误: 问题不能为空"
    else built (record config {
      question = some form.qa_question;
      timeout = some (timeout_or form.qa_timeout 60);
    })

abbrev pub build_code : Form → Config → Built
build_code form config =
    let code_config = record config {
      script = some form.code_script;
      code = some form.code_code;
      timeout = some (timeout_or form.code_timeout 300);
    } in
    if form.code_script == ""
    then if form.code_code == "" then refused "❌ 错误: 脚本或代码不能为空" else built code_config
    else built code_config

unfoldable pub build_config : Form → Built
unfolding roles_of
build_config form =
    let config = record empty_config { agent_roles = some (roles_of form) } in
    if form.scenario_type == "simple_qa"
    then build_qa form config
    else if form.scenario_type == "code_execution"
    then build_code form config
    else built config

-- `create_scenario` of the page: the message, and what the manager makes of the form.
unfoldable pub create_scenario : ℕ → Ids → Form → Platform → Platform × String
unfolding build_config
create_scenario now ids form p = elim (build_config form) [
  | refused message ↦ (p, message)
  | built config ↦
      let (created, scenario_id) =
        Manager.create_scenario now ids
          (record {
            scenario_type = form.scenario_type;
            name = form.scenario_name;
            description = form.scenario_desc;
            config = some config;
            created_by = none;
          })
          p in
      (created, "✅ 已创建: " <> scenario_id)
]

-- `x.get(key, d)` on a text, and `x or ""`.
abbrev pub text_or : Option String → String → String
text_or none d = d
text_or (some s) d = s

abbrev pub cloned_role : Option String → Option String → Option String → RoleInput
cloned_role name role server_id = record {
  name = text_or name "";
  role = text_or role "";
  server = text_or server_id "";
}

-- The ten groups of a clone; an entry that is no dict raises.
unfoldable pub role_inputs : ℕ → List Declared → Option (List RoleInput)
role_inputs zero agents = some []
role_inputs (suc n) [] = elim (role_inputs n []) [ none ↦ none | some rest ↦ some (blank ∷ rest) ]
role_inputs (suc n) (agent name role server_id ∷ agents) = elim (role_inputs n agents) [
  | none ↦ none
  | some rest ↦ some (cloned_role name role server_id ∷ rest)
]
role_inputs (suc n) (other ∷ agents) = none

-- `max(1, min(n, 10))`
abbrev pub clone_count : ℕ → ℕ
clone_count n = if ltb (shown_count n) 1 then 1 else shown_count n

abbrev pub number_or : Option ℕ → ℕ → ℕ
number_or none d = d
number_or (some n) d = n

-- `json.loads(scenario.config) if scenario.config else {}`, and `{}` where it raises.
abbrev pub readable : Option (Json Config) → Config
readable none = empty_config
readable (some (value config)) = config
readable (some malformed) = empty_config

abbrev pub clone_form : Scenario → Config → AgentRoles → List RoleInput → Form
clone_form s config roles inputs = record {
  scenario_type = if contains scenario_types s.scenario_type then s.scenario_type else "simple_qa";
  scenario_name = s.name <> " (克隆)";
  scenario_desc = text_or s.description "";
  scheduling_agent_role = text_or roles.scheduling_role "";
  execution_roles_count = clone_count (length roles.execution_agents);
  roles = inputs;
  qa_question = text_or config.question "";
  qa_timeout = some (number_or config.timeout 60);
  code_script = text_or config.script "";
  code_code = text_or config.code "";
  code_timeout = some (number_or config.timeout 300);
}

-- What `show_clone_view` does with an id that is not empty.
pub data CloneView : Type 0 where
  not_found raises : CloneView
  filled : Form → CloneView

abbrev pub with_inputs : Scenario → Config → AgentRoles → Option (List RoleInput) → CloneView
with_inputs s config roles none = raises
with_inputs s config roles (some inputs) = filled (clone_form s config roles inputs)

abbrev pub clone_scenario : Scenario → CloneView
unfolding role_inputs
clone_scenario s =
    let config = readable s.config in
    let roles = given config.agent_roles no_roles in
    with_inputs s config roles (role_inputs 10 roles.execution_agents)

unfoldable pub show_clone_view : String → Platform → CloneView
unfolding clone_scenario
show_clone_view scenario_id p = elim (find_by_scenario_id scenario_id p.scenarios) [
  | none ↦ not_found
  | some s ↦ clone_scenario s
]
