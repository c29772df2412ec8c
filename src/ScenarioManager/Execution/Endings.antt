-- ===== src/ScenarioManager/Execution/Endings.antt =====
-- How scenarios end.
use agent_server_platform.Base.{
  ℕ, String, ◌≡◌, refl, ap, ◌∙◌, true, none, some, map, arith, string_eq, Option-cases, inl, inr,
  ◌≢◌,
}
use agent_server_platform.Base.Dict.{lookup, lookup-erase}
use agent_server_platform.StateMachine.{ScenarioState, scenario_state_eq}
use agent_server_platform.Database.Table.Keyed.{IsKeyed, at}
use agent_server_platform.Database.Scenarios.{
  Config, ScenarioContext, Scenario, update_scenario_state, scenario_model, find_by_scenario_id,
  set_state, ended,
}
use agent_server_platform.Database.Scenarios.Writers.{
  update_scenario_state-at, mark_as_completed-at, mark_as_failed-at,
}
use agent_server_platform.Platform.{Platform, emit_if-scenarios, emit_if-active_scenarios}
use agent_server_platform.ScenarioManager.{returned, loads, no_context}
use agent_server_platform.ScenarioManager.Release.{release_scenario_agents}
use agent_server_platform.ScenarioManager.Execution.{
  Outcome, finished, error, settle, drop_active, execute_scenario, at_lock, stop_begin, stop_end,
  stop_scenario, stop_after,
}

-- The release of a scenario's agents leaves the scenarios and the registry of active ones alone.
release_scenario_agents-scenarios :
    (now : ℕ) (k : String) (p : Platform)
    → (release_scenario_agents now k p).scenarios ≡ p.scenarios
unfolding release_scenario_agents
release_scenario_agents-scenarios now k p = emit_if-scenarios _ _ _

release_scenario_agents-active_scenarios :
    (now : ℕ) (k : String) (p : Platform)
    → (release_scenario_agents now k p).active_scenarios ≡ p.active_scenarios
unfolding release_scenario_agents
release_scenario_agents-active_scenarios now k p = emit_if-active_scenarios _ _ _

-- The state that the end of a run is recorded as.
abbrev pub final_state : Outcome → ScenarioState
final_state finished = ScenarioState.completed
final_state (error message) = ScenarioState.failed

settle-scenarios :
    (now : ℕ) (k : String) (outcome : Outcome) (p : Platform)
    → IsKeyed scenario_model p.scenarios
    → (settle now k outcome p).scenarios
      ≡ map (at scenario_model k (ended now (final_state outcome))) p.scenarios
unfolding settle
settle-scenarios now k finished p h = ap (λ q. q.0) (mark_as_completed-at now k p.scenarios h)
settle-scenarios now k (error message) p h = ap (λ q. q.0) (mark_as_failed-at now k p.scenarios h)

settle-active_scenarios :
    (now : ℕ) (k : String) (outcome : Outcome) (p : Platform)
    → (settle now k outcome p).active_scenarios ≡ p.active_scenarios
unfolding settle
settle-active_scenarios now k finished p = refl
settle-active_scenarios now k (error message) p = refl

-- Where the scenarios' keys are unique at the end of a run, the scenario's row is completed if its code
-- returned and failed if it raised, whatever state was stored meanwhile, a cancellation included; no
-- other scenario changes, and the scenario is not active any more.
pub execute_scenario-scenarios :
    (now : ℕ) (k : String) (start : Config → Platform → Platform × Outcome) (config : Config)
    (p : Platform)
    → IsKeyed scenario_model (start config p).0.scenarios
    → ((execute_scenario now k start config p).scenarios
        ≡ map
            (at scenario_model k (ended now (final_state (start config p).1)))
            (start config p).0.scenarios)
      × (lookup k (execute_scenario now k start config p).active_scenarios ≡ none)
unfolding execute_scenario
execute_scenario-scenarios now k start config p h =
    let (ran, outcome) = start config p in
    (
      release_scenario_agents-scenarios now k (settle now k outcome ran)
          ∙ settle-scenarios now k outcome ran h,
      lookup-erase k k _ ∙ ground arith,
    )

module _ (now : ℕ) (k : String) (p : Platform) where
  -- The state at the lock: the row is `cancelled`.
  locked : Platform
  locked = record p {
    scenarios = (update_scenario_state now k ScenarioState.cancelled p.scenarios).0;
  }

  module _ (s : Scenario) (found : find_by_scenario_id k p.scenarios ≡ some s) where
    stop_begin-locked :
        (c : ScenarioContext)
        → loads no_context s.context ≡ some c
        → stop_begin now k p ≡ (locked, at_lock)
    unfolding stop_begin locked
    stop_begin-locked c e = rw (found, e, stop_begin) refl

-- On a table with unique keys, a stop of a scenario whose row is there with a context that can be read
-- answers true, stores `cancelled` whatever state the row had, a final one included, and leaves the
-- scenario inactive; no other scenario changes.
pub stop_scenario-scenarios :
    (now : ℕ) (k : String) (p : Platform) (s : Scenario)
    → IsKeyed scenario_model p.scenarios
    → find_by_scenario_id k p.scenarios ≡ some s
    → loads no_context s.context ≢ none
    → ((stop_scenario now k p).0.scenarios
        ≡ map (at scenario_model k (set_state now ScenarioState.cancelled)) p.scenarios)
      × (lookup k (stop_scenario now k p).0.active_scenarios ≡ none)
      × ((stop_scenario now k p).1 ≡ returned true)
unfolding stop_scenario stop_after stop_end locked
stop_scenario-scenarios now k p s h e readable = elim (Option-cases (loads no_context s.context)) [
  | inl lost ↦ absurd (readable lost)
  | inr (c, read) ↦
      let stopped = ap (stop_after now k) (stop_begin-locked now k p s e c read) in
      (
        ap (λ q. q.0.scenarios) stopped
            ∙ release_scenario_agents-scenarios now k (drop_active now k (locked now k p))
            ∙ ap (λ q. q.0) (update_scenario_state-at now k p.scenarios h ScenarioState.cancelled),
        ap (λ q. lookup k q.0.active_scenarios) stopped
            ∙ ap (lookup k) (
                release_scenario_agents-active_scenarios now k (drop_active now k (locked now k p)))
            ∙ lookup-erase k k p.active_scenarios
            ∙ ground arith,
        ap (λ q. q.1) stopped,
      )
]
