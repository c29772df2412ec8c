-- ===== src/StateMachine.antt =====
-- src/core/state_machine.py: the two state enums, `class StateMachine` and the two transition
-- tables. `_TERMINAL_TASK_STATES` stands in src/core/central_dispatcher.py.
pub mod Diagram
pub mod Attempts
mod Samples
use agent_server_platform.Base.{
  String, Bool, true, false, Option, none, some, List, [], ◌∷◌, Eq, ◌==◌, if◌then◌else◌, contains,
}
use agent_server_platform.Base.Dict.{Dict, lookup}

pub data TaskState : Type 0 where
  pending running waiting success failed timeout cancelled : TaskState

pub data ScenarioState : Type 0 where
  initializing running completed failed cancelled : ScenarioState

unfoldable pub TaskState-discrete : Discrete TaskState
TaskState-discrete = hlevel

unfoldable pub ScenarioState-discrete : Discrete ScenarioState
ScenarioState-discrete = hlevel

instance abbrev pub task_state_eq : Eq TaskState
task_state_eq = record { dec = TaskState-discrete }

instance abbrev pub scenario_state_eq : Eq ScenarioState
scenario_state_eq = record { dec = ScenarioState-discrete }

-- `class StateMachine`, over any enum of states. A set of states is a list of them.
pub record StateMachine (S : Type 0) : Type 0 where
  pub transitions : Dict S (List S)
  pub current_state : Option S

module _ {S : Type 0} where
  -- `StateMachine.__init__`
  unfoldable pub new : Dict S (List S) → StateMachine S
  new transitions = record { transitions = transitions; current_state = none }

  unfoldable pub initialize : S → StateMachine S → StateMachine S
  initialize initial_state sm = record sm { current_state = some initial_state }

module _ {S : Type 0} ⦃e : Eq S⦄ where
  -- `self.transitions.get(self.current_state, set())`
  unfoldable pub allowed : Dict S (List S) → S → List S
  unfolding lookup
  allowed table s = elim (lookup s table) [ none ↦ [] | some states ↦ states ]

  unfoldable pub can_transition : StateMachine S → S → Bool
  unfolding allowed contains
  can_transition sm new_state = elim sm.current_state [
    | none ↦ false
    | some s ↦ contains (allowed sm.transitions s) new_state
  ]

  unfoldable pub transition : StateMachine S → S → StateMachine S × Bool
  transition sm new_state =
      if can_transition sm new_state
      then (record sm { current_state = some new_state }, true)
      else (sm, false)

unfoldable pub task_state_machine : StateMachine TaskState
unfolding new
task_state_machine = new (
    (TaskState.pending, TaskState.running ∷ TaskState.cancelled ∷ [])
    ∷ (
      TaskState.running,
      TaskState.success ∷ TaskState.failed ∷ TaskState.timeout ∷ TaskState.cancelled
          ∷ TaskState.waiting ∷ [],
    )
    ∷ (TaskState.waiting, TaskState.running ∷ TaskState.cancelled ∷ [])
    ∷ (TaskState.success, [])
    ∷ (TaskState.failed, [])
    ∷ (TaskState.timeout, [])
    ∷ (TaskState.cancelled, [])
    ∷ [])

unfoldable pub scenario_state_machine : StateMachine ScenarioState
unfolding new
scenario_state_machine = new (
    (ScenarioState.initializing, ScenarioState.running ∷ ScenarioState.failed ∷ [])
    ∷ (
      ScenarioState.running,
      ScenarioState.completed ∷ ScenarioState.failed ∷ ScenarioState.cancelled ∷ [],
    )
    ∷ (ScenarioState.completed, [])
    ∷ (ScenarioState.failed, [])
    ∷ (ScenarioState.cancelled, ScenarioState.running ∷ [])
    ∷ [])

-- `_TERMINAL_TASK_STATES`
abbrev pub terminal_task_states : List TaskState
terminal_task_states =
    TaskState.success ∷ TaskState.failed ∷ TaskState.timeout ∷ TaskState.cancelled ∷ []

-- `state in _TERMINAL_TASK_STATES`
unfoldable pub is_terminal : TaskState → Bool
unfolding contains
is_terminal s = contains terminal_task_states s

-- The machine of a task, or of a scenario, as its users set it up: `sm.initialize(state)`.
abbrev pub task_machine : TaskState → StateMachine TaskState
task_machine s = initialize s task_state_machine

abbrev pub scenario_machine : ScenarioState → StateMachine ScenarioState
scenario_machine s = initialize s scenario_state_machine
