-- ===== src/BaseScenario.antt =====
-- src/scenarios/base_scenario.py: `BaseScenario.start` and `wait_for_task`, and `ScenarioOutput` of
-- src/scenarios/components.py. A scenario's `initialize`, `run` and `cleanup` are parameters, which
-- change the rest of the world `W`; `json.loads` of a result is one too. The loop of `wait_for_task`
-- has the list of the task tables that it sees until its deadline.
pub mod Waiting
mod Samples
use agent_server_platform.Base.{
  ℕ, String, Bool, true, false, Option, none, some, List, [], ◌∷◌, ◌++◌, ◌==◌, string_eq,
  if◌then◌else◌, all,
}
use agent_server_platform.Base.Dict.{Dict, insert}
use agent_server_platform.StateMachine.{TaskState, is_terminal}
use agent_server_platform.Database.Tasks.{Task, find_by_task_id}

-- `ScenarioState`, which is not the enumeration of the scenario table.
pub data ScenarioState : Type 0 where
  initializing running completed failed cancelled : ScenarioState

-- `ScenarioContext` without the configuration and the metadata.
pub record ScenarioContext (D : Type 0) : Type 0 where
  pub scenario_id : String
  pub state : ScenarioState
  pub created_at : ℕ
  pub started_at : Option ℕ
  pub completed_at : Option ℕ
  pub result : Option D
  pub error : Option String

-- The code of a scenario returns or raises.
pub data Ended (D : Type 0) : Type 0 where
  returned : D → Ended D
  raised : String → Ended D

module _ {D : Type 0} where
  abbrev pub new_context : ℕ → Option String → ScenarioContext D
  new_context now scenario_id = record {
    scenario_id = elim scenario_id [ none ↦ "unknown" | some s ↦ s ];
    state = ScenarioState.initializing;
    created_at = now;
    started_at = none;
    completed_at = none;
    result = none;
    error = none;
  }

  -- The two ways in which the body of `start` ends, before `finally`.
  abbrev pub conclude : ℕ → Ended D → ScenarioContext D → ScenarioContext D
  conclude now (returned d) c = record c {
    result = some d;
    state = ScenarioState.completed;
    completed_at = some now;
  }
  conclude now (raised e) c = record c {
    error = some e;
    state = ScenarioState.failed;
    completed_at = some now;
  }

  module _ {W : Type 0} (initialize : W → W × Option String) (run : W → W × Ended D)
      (cleanup : W → W) where
    abbrev pub run_body :
        ℕ → ℕ → ScenarioContext D → W × Option String → W × (ScenarioContext D × Ended D)
    run_body begun over c (w, none) =
        let (ran, ended) = run w in
        let going = record c { state = ScenarioState.running; started_at = some begun } in
        (ran, (conclude over ended going, ended))
    run_body begun over c (w, some e) = (w, (conclude over (raised e) c, raised e))

    -- `BaseScenario.start`, at three readings of the clock; errors of `cleanup` are ignored.
    unfoldable pub start : ℕ → ℕ → ℕ → Option String → W → W × (ScenarioContext D × Ended D)
    start now begun over scenario_id w =
        let (done, told) = run_body begun over (new_context now scenario_id) (initialize w) in
        (cleanup done, told)

-- What `wait_for_task` returns, or the error of `json.loads`.
pub data Waited (D : Type 0) : Type 0 where
  answered : TaskState → Option D → Option String → Waited D
  unreadable : Waited D

module _ {D : Type 0} (loads : String → Option D) where
  abbrev pub report : Task → Waited D
  report t = elim t.result [
    | none ↦ answered t.state none t.error
    | some text ↦
        if text == ""
        then answered t.state none t.error
        else elim (loads text) [ none ↦ unreadable | some d ↦ answered t.state (some d) t.error ]
  ]

  -- One look at the task: its report once it is over.
  abbrev pub look : Option Task → Waited D → Waited D
  look none rest = rest
  look (some t) rest = if is_terminal t.state then report t else rest

  unfoldable pub wait_for_task : String → List (List Task) → Waited D
  wait_for_task task_id [] =
      answered TaskState.timeout none (some "Task did not complete within timeout")
  wait_for_task task_id (rows ∷ polls) =
      look (find_by_task_id task_id rows) (wait_for_task task_id polls)

-- `ComponentResult`; the status is a free text.
pub record ComponentResult (D : Type 0) : Type 0 where
  pub component_id : String
  pub status : String
  pub data_of : Option D
  pub error : Option String
  pub executed_at : ℕ

-- `ScenarioOutput.add_result`, and its `success`.
unfoldable pub add_result :
    {D : Type 0}
    → ComponentResult D
    → Dict String (ComponentResult D)
    → Dict String (ComponentResult D)
add_result r results = insert r.component_id r results

unfoldable pub success : {D : Type 0} → Dict String (ComponentResult D) → Bool
success [] = true
success ((component_id, r) ∷ results) =
    let rest = success results in if r.status == "success" then rest else false
