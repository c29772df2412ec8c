-- ===== src/Database/Scenarios/Writers.antt =====
-- What the writers of the scenario repository do to a table with unique keys.
use agent_server_platform.Base.{ℕ, String, ◌≡◌, refl, Bool, List, map}
use agent_server_platform.StateMachine.{ScenarioState}
use agent_server_platform.Database.Tasks.Update.{or_stored_self}
use agent_server_platform.Database.Table.Keyed.{IsKeyed, find, at, is_found, modify-at}
use agent_server_platform.Database.Scenarios.{
  Scenario, scenario_model, set_state, update_scenario_state, started, mark_as_started, ended,
  mark_as_completed, mark_as_failed,
}

module _ (now : ℕ) (k : String) (rows : List Scenario) (keyed : IsKeyed scenario_model rows) where
  -- The rows and the answer of a writer that changes the row of the key.
  abbrev Changed : (Scenario → Scenario) → List Scenario × Bool → Type 0
  Changed f written =
      written
      ≡ (map (at scenario_model k f) rows, is_found scenario_model (find scenario_model k rows))

  pub update_scenario_state-at :
      (s : ScenarioState) → Changed (set_state now s) (update_scenario_state now k s rows)
  unfolding update_scenario_state
  update_scenario_state-at s =
      modify-at scenario_model now k (set_state now s) (set_state now s) rows keyed (λ t. refl)
        (λ t. refl) (λ t. simp or_stored_self)

  pub mark_as_started-at : Changed (started now) (mark_as_started now k rows)
  unfolding mark_as_started
  mark_as_started-at =
      modify-at scenario_model now k (started now) (started now) rows keyed (λ t. refl) (λ t. refl)
        (λ t. simp or_stored_self)

  pub mark_as_completed-at :
      Changed (ended now ScenarioState.completed) (mark_as_completed now k rows)
  unfolding mark_as_completed
  mark_as_completed-at =
      modify-at scenario_model now k (ended now ScenarioState.completed)
        (ended now ScenarioState.completed) rows keyed (λ t. refl) (λ t. refl)
        (λ t. simp or_stored_self)

  pub mark_as_failed-at : Changed (ended now ScenarioState.failed) (mark_as_failed now k rows)
  unfolding mark_as_failed
  mark_as_failed-at =
      modify-at scenario_model now k (ended now ScenarioState.failed)
        (ended now ScenarioState.failed) rows keyed (λ t. refl) (λ t. refl)
        (λ t. simp or_stored_self)
