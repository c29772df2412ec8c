-- ===== src/Pages/Dashboard.antt =====
-- src/pages/scenario_dashboard/__init__.py: the guard and the actions behind the buttons, the form that
-- creates a scenario and the one that is filled from a stored scenario. A form is what its inputs
-- hold; a text box that holds nothing is the empty text, and so is a dropdown without a choice.
pub mod Form
pub mod Guard
use agent_server_platform.Base.{
  ℕ, ◌+◌, ◌-◌, String, ◌<>◌, Bool, true, false, ◌||◌, Option, none, some, List, [], ◌∷◌, ◌==◌,
  string_eq, if◌then◌else◌, ltb, contains, option_map, before_first, after_first,
}
use agent_server_platform.StateMachine.{ScenarioState}
use agent_server_platform.Platform.{Platform}
use agent_server_platform.ScenarioManager.{
  Answer, returned, raised, Status, start_scenario, get_scenario_status,
}
use agent_server_platform.ScenarioManager.Execution.{stop_scenario}

-- The values of the enumeration, as the column and the status hold them.
abbrev pub value_of : ScenarioState → String
value_of ScenarioState.initializing = "initializing"
value_of ScenarioState.running = "running"
value_of ScenarioState.completed = "completed"
value_of ScenarioState.failed = "failed"
value_of ScenarioState.cancelled = "cancelled"

abbrev pub startable_states : List String
startable_states = "initializing" ∷ "cancelled" ∷ []

-- The keys of `SCENARIO_REGISTRY`.
abbrev pub scenario_types : List String
scenario_types = "simple_qa" ∷ "code_execution" ∷ []

-- `start_guard`, given the state of the status, if there is one: whether the start is blocked, and why.
unfoldable pub start_guard : Option String → Bool × String
unfolding contains
start_guard none = (true, "❌ 场景未找到")
start_guard (some state) =
    if contains ("running" ∷ "starting" ∷ []) state
    then (true, "⏳ 场景正在运行中（" <> state <> "），无需重复启动")
    else if contains ("completed" ∷ "failed" ∷ []) state
    then (true, "🔒 场景已结束（" <> state <> "），无法重启，请新建或克隆场景")
    else if contains startable_states state
    then (false, "")
    else (true, "❌ 当前状态（" <> state <> "）不支持启动")

-- `add_execution_role` and `remove_execution_role`: the number of roles that are shown.
unfoldable pub add_execution_role : Option ℕ → ℕ
add_execution_role none = 1
add_execution_role (some n) = if ltb (n + 1) 10 then n + 1 else 10

unfoldable pub remove_execution_role : Option ℕ → ℕ
remove_execution_role none = 1
remove_execution_role (some n) = if ltb 1 (n - 1) then n - 1 else 1

-- The export button of the detail view.
unfoldable pub export_visible : String → Bool
unfolding contains
export_visible state = contains ("completed" ∷ "failed" ∷ "cancelled" ∷ []) state

-- `trigger.split('@')` with its unpacking: the id and the action, or an error at a second `@`.
unfoldable pub split_trigger : String → Option (String × String)
split_trigger trigger = elim (after_first "@" trigger) [
  | none ↦ some (trigger, "")
  | some action ↦ elim (after_first "@" action) [
    | none ↦ some (before_first "@" trigger, action)
    | some more ↦ none
  ]
]

-- What the action view shows: the id, the state before the action and the message; none is an
-- exception.
pub record Shown : Type 0 where
  pub scenario_id : String
  pub state : Option String
  pub message : String

abbrev pub shown : String → Option Status → String → Option Shown
shown scenario_id status message = some (record {
  scenario_id = scenario_id;
  state = option_map (λ s. value_of s.summary.state) status;
  message = message;
})

-- What a call of the manager says, `✅` where it answers true.
abbrev pub report :
    String → String → String → Option Status → Platform × Answer → Platform × Option Shown
report good bad scenario_id status (p, returned true) =
    (p, shown scenario_id status (good <> scenario_id))
report good bad scenario_id status (p, returned false) =
    (p, shown scenario_id status (bad <> scenario_id))
report good bad scenario_id status (p, raised) = (p, none)

module _ (uuids : ℕ → String) (now row_id instance_id : ℕ) where
  -- The start button: the guard, the registry, and the manager.
  unfoldable pub start_action : String → Status → Platform → Platform × Option Shown
  start_action scenario_id status p =
      let (blocked, message) = start_guard (some (value_of status.summary.state)) in
      let (started, (answer, _)) = start_scenario uuids now scenario_id row_id instance_id p in
      let known = report "✅ 已启动: " "❌ 启动失败: " scenario_id (some status) (started, answer) in
      if blocked
      then (p, shown scenario_id (some status) message)
      else if contains scenario_types status.summary.scenario_type
      then known
      else (p, shown scenario_id (some status) ("❌ 未知场景类型: " <> status.summary.scenario_type))

  abbrev pub act : String → String → Option Status → Platform → Platform × Option Shown
  act action scenario_id status p =
      let stopped = stop_scenario now scenario_id p in
      let started : Platform × Option Shown = elim status [
        | none ↦ (p, shown scenario_id none "")
        | some s ↦ start_action scenario_id s p
      ] in
      if action == "start"
      then started
      else if action == "stop"
      then report "✅ 已停止: " "❌ 停止失败: " scenario_id status stopped
      else (p, shown scenario_id status "")

  -- `show_action_view` on a trigger that is not empty.
  unfoldable pub show_action_view : String → Platform → Platform × Option Shown
  unfolding start_action
  show_action_view trigger p = elim (split_trigger trigger) [
    | none ↦ (p, none)
    | some (scenario_id, action) ↦ elim (get_scenario_status scenario_id p) [
      | none ↦ act action scenario_id none p
      | some none ↦ (p, none)
      | some (some status) ↦ act action scenario_id (some status) p
    ]
  ]
