-- ===== src/Pages/Dashboard/Guard.antt =====
-- The guard before the start button and the guard of the scenario manager.
use agent_server_platform.Base.{
  ℕ, String, ◌≡◌, ◌↔◌, refl, sym, ap, ◌∙◌, true, false, not, some, contains, string_eq, option_map,
  Option-cases, Bool-cases, inl, inr, arith,
}
use agent_server_platform.StateMachine.{
  ScenarioState, scenario_state_eq, ScenarioState-discrete, can_transition, scenario_machine,
  allowed, scenario_state_machine, initialize, new,
}
use agent_server_platform.Database.Scenarios.{find_by_scenario_id}
use agent_server_platform.Platform.{Platform}
use agent_server_platform.ScenarioManager.{returned, start_scenario}
use agent_server_platform.ScenarioManager.Starting.{
  start_absent, start_allowed, start_forbidden, launch-effects,
}
use agent_server_platform.Pages.Dashboard.{value_of, start_guard}

start_guard-machine :
    (s : ScenarioState)
    → (start_guard (some (value_of s))).0
      ≡ not (can_transition (scenario_machine s) ScenarioState.running)
unfolding start_guard can_transition contains string_eq allowed initialize new
    scenario_state_machine ScenarioState-discrete
start_guard-machine ScenarioState.initializing = refl
start_guard-machine ScenarioState.running = refl
start_guard-machine ScenarioState.completed = refl
start_guard-machine ScenarioState.failed = refl
start_guard-machine ScenarioState.cancelled = refl

-- The page's guard blocks the start of a scenario exactly when `start_scenario` would answer false: where
-- there is no row of the id, and where the state machine does not let the row's state run.
pub start_guard-start_scenario :
    (uuids : ℕ → String) (now : ℕ) (k : String) (row_id instance_id : ℕ) (p : Platform)
    → ((start_guard (option_map (λ s. value_of s.state) (find_by_scenario_id k p.scenarios))).0
        ≡ true)
      ↔ ((start_scenario uuids now k row_id instance_id p).1.0 ≡ returned false)
unfolding start_guard
start_guard-start_scenario uuids now k row_id instance_id p =
    elim (Option-cases (find_by_scenario_id k p.scenarios)) [
      | inl absent ↦ (
        λ b. ap (λ q. q.1.0) (start_absent uuids now k row_id instance_id p absent),
        λ r. rw absent refl,
      )
      | inr (s, found) ↦
          elim (Bool-cases (can_transition (scenario_machine s.state) ScenarioState.running)) [
            | inl may ↦ (
              λ b. absurd (ground (arith, b, found, may, start_guard-machine s.state)),
              λ r. absurd (
                  (launch-effects uuids now k row_id instance_id p s).2 (
                    sym
                      (ap (λ q. q.1.0) (start_allowed uuids now k row_id instance_id p s found may))
                    ∙ r)),
            )
            | inr never ↦ (
              λ b. ap (λ q. q.1.0) (start_forbidden uuids now k row_id instance_id p s found never),
              λ r. rw found (start_guard-machine s.state ∙ ap not never),
            )
          ]
    ]
