-- ===== src/Pages/Assistant.antt =====
-- src/pages/home/assistant.py: drafts of scenarios, their validation, and what saves and loads them.
-- A draft is the dict of a `scene-spec` by its values; a value that is not text where text is meant
-- does not occur in it.
pub mod Chat
pub mod Updates
pub mod Saving
use agent_server_platform.Base.{
  ℕ, String, ◌<>◌, Bool, true, false, not, ◌&&◌, ◌||◌, Option, none, some, List, [], ◌∷◌, ◌==◌,
  string_eq, if◌then◌else◌, any, contains, select, head?, leb, is_blank, has_prefix, text_length,
}
use agent_server_platform.StateMachine.{ScenarioState, scenario_state_eq}
use agent_server_platform.Database.Query.{sort_by}
use agent_server_platform.Database.Scenarios.{
  Declared, agent, other, Config, empty_config, Scenario, find_by_scenario_id, newer,
}
use agent_server_platform.Platform.{Platform}
use agent_server_platform.ScenarioManager.{Ids, create_scenario, update_scenario, given, no_roles}
use agent_server_platform.Pages.Dashboard.{value_of, scenario_types}
use agent_server_platform.Pages.Dashboard.Form.{text_or, readable}

-- The value of `config`, if it is truthy.
pub data ConfigValue : Type 0 where
  object : Config → ConfigValue
  not_object : ConfigValue

pub record Spec : Type 0 where
  pub scenario_type : Option String
  pub name : Option String
  pub description : Option String
  pub config : Option ConfigValue

-- The truth of `d.get(key)` on a text.
abbrev pub is_given : Option String → Bool
is_given none = false
is_given (some s) = not (s == "")

-- `_exec_agent_ok`
abbrev pub exec_agent_ok : Declared → Bool
exec_agent_ok (agent name role server_id) = is_given name && is_given role
exec_agent_ok other = false

-- The fields that a type requires.
abbrev pub has_required : String → Config → Bool
has_required scenario_type config =
    if scenario_type == "code_execution"
    then is_given config.script || is_given config.code
    else is_given config.question

abbrev pub required_error : String → String
required_error scenario_type =
    if scenario_type == "code_execution" then "代码执行场景需要 Python 脚本或代码片段。" else "问答场景需要 问题。"

abbrev pub validate_config : String → Config → Bool × String
validate_config scenario_type config =
    let roles = given config.agent_roles no_roles in
    if any exec_agent_ok roles.execution_agents
    then if has_required scenario_type config
      then (true, "")
      else (false, required_error scenario_type)
    else (false, "至少需要一个执行 Agent（含 name 与 role）。")

-- `spec.get("config") or {}` once it is known to be a dict.
abbrev pub config_or_empty : Option ConfigValue → Option Config
config_or_empty none = some empty_config
config_or_empty (some (object config)) = some config
config_or_empty (some not_object) = none

abbrev pub type_error : String
type_error = "scenario_type 必须是 ('simple_qa', 'code_execution') 之一。"

abbrev pub validate_named : String → Spec → Bool × String
validate_named scenario_type spec =
    if is_blank (text_or spec.name "")
    then (false, "场景名称(name)不能为空。")
    else elim (config_or_empty spec.config) [
      | none ↦ (false, "config 必须是对象。")
      | some config ↦ validate_config scenario_type config
    ]

-- `validate_scene_spec` of a dict.
unfoldable pub validate_scene_spec : Spec → Bool × String
validate_scene_spec spec = elim spec.scenario_type [
  | none ↦ (false, type_error)
  | some scenario_type ↦
      if contains scenario_types scenario_type
      then validate_named scenario_type spec
      else (false, type_error)
]

-- The parts of a draft that passed the validation.
abbrev pub type_of : Spec → String
type_of spec = text_or spec.scenario_type ""

abbrev pub name_of : Spec → String
name_of spec = text_or spec.name ""

abbrev pub config_of : Spec → Config
config_of spec = given (config_or_empty spec.config) empty_config

abbrev pub missing : String → String
missing scenario_id = "未找到场景：" <> scenario_id <> "（可能已被删除）"

module _ (now : ℕ) where
  -- `save_scene` over a scenario that is there, once the draft is valid.
  abbrev pub save_over : Spec → String → Scenario → Platform → Platform × (Option String × String)
  save_over spec scenario_id existing p =
      let (saved, updated) =
        update_scenario now scenario_id
          (record {
            scenario_type = some (type_of spec);
            name = some (name_of spec);
            description = some (text_or spec.description "");
            config = some (config_of spec);
          })
          p in
      if existing.state == ScenarioState.initializing
      then (saved, if updated then (some scenario_id, "") else (none, missing scenario_id))
      else (p, (none, "仅可修改初始化状态的场景，当前状态为「" <> value_of existing.state <> "」，无法修改。"))

  abbrev pub save_new : Ids → Spec → Platform → Platform × (Option String × String)
  save_new ids spec p =
      let (saved, scenario_id) =
        create_scenario now ids
          (record {
            scenario_type = type_of spec;
            name = name_of spec;
            description = text_or spec.description "";
            config = some (config_of spec);
            created_by = none;
          })
          p in
      (saved, (some scenario_id, ""))

  abbrev pub save_at : Ids → Spec → Option String → Platform → Platform × (Option String × String)
  save_at ids spec none p = save_new ids spec p
  save_at ids spec (some scenario_id) p =
      let over : Platform × (Option String × String) =
        elim (find_by_scenario_id scenario_id p.scenarios) [
          | none ↦ (p, (none, missing scenario_id))
          | some existing ↦ save_over spec scenario_id existing p
        ] in
      if scenario_id == "" then save_new ids spec p else over

  -- `save_scene`; the database id and the uuids serve a new scenario.
  unfoldable pub save_scene :
      Ids → Spec → Option String → Platform → Platform × (Option String × String)
  unfolding validate_scene_spec
  save_scene ids spec scenario_id p =
      let (ok, err) = validate_scene_spec spec in
      if ok then save_at ids spec scenario_id p else (p, (none, err))

-- What `load_scenario_spec` makes of a row.
abbrev pub spec_of : Scenario → Spec
spec_of s = record {
  scenario_type = some s.scenario_type;
  name = some s.name;
  description = some (text_or s.description "");
  config = some (object (readable s.config));
}

unfoldable pub load_scenario_spec : String → List Scenario → Option Spec
load_scenario_spec scenario_id rows = elim (find_by_scenario_id scenario_id rows) [
  | none ↦ none
  | some s ↦ some (spec_of s)
]

-- `_resolve_scenario`: by the whole id, or by its first characters.
unfoldable pub resolve_scenario : String → List Scenario → Option Scenario
resolve_scenario scenario_id rows =
    let found = find_by_scenario_id scenario_id rows in
    let like = head? (select (λ c. has_prefix scenario_id c.scenario_id) (sort_by newer rows)) in
    elim found [ some s ↦ some s | none ↦ if leb 4 (text_length scenario_id) then like else none ]
