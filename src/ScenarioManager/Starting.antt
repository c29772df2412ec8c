-- ===== src/ScenarioManager/Starting.antt =====
-- What `start_scenario` changes.
use agent_server_platform.Base.{
  ℕ, String, ◌≡◌, refl, sym, ap, ◌∙◌, true, false, none, some, map, arith, string_eq, Bool-cases,
  Option-cases, inl, inr, ◌≢◌,
}
use agent_server_platform.Base.Dict.{lookup, lookup-insert, insert}
use agent_server_platform.StateMachine.{
  ScenarioState, scenario_state_eq, can_transition, scenario_machine,
}
use agent_server_platform.Database.Table.Keyed.{IsKeyed, at}
use agent_server_platform.Database.Scenarios.{
  Scenario, update_scenario_state, scenario_model, find_by_scenario_id, set_state,
}
use agent_server_platform.Database.Scenarios.Writers.{update_scenario_state-at}
use agent_server_platform.Platform.{Platform}
use agent_server_platform.ScenarioManager.{
  returned, loads, no_context, or_empty, launch, start_scenario,
}

module _ (uuids : ℕ → String) (now : ℕ) (k : String) (row_id instance_id : ℕ) (p : Platform) where
  pub start_absent :
      find_by_scenario_id k p.scenarios ≡ none
      → start_scenario uuids now k row_id instance_id p ≡ (p, (returned false, none))
  unfolding start_scenario
  start_absent e = rw (e, start_scenario) refl

  module _ (s : Scenario) (found : find_by_scenario_id k p.scenarios ≡ some s) where
    pub start_allowed :
        can_transition (scenario_machine s.state) ScenarioState.running ≡ true
        → start_scenario uuids now k row_id instance_id p
          ≡ launch uuids now k row_id instance_id s p
    unfolding start_scenario
    start_allowed e = rw (found, e, start_scenario) refl

    pub start_forbidden :
        can_transition (scenario_machine s.state) ScenarioState.running ≡ false
        → start_scenario uuids now k row_id instance_id p ≡ (p, (returned false, none))
    unfolding start_scenario
    start_forbidden e = rw (found, e, start_scenario) refl

  -- A launch always stores the state and the instance, an unreadable column notwithstanding.
  pub launch-effects :
      (s : Scenario)
      → ((launch uuids now k row_id instance_id s p).0.scenarios
          ≡ (update_scenario_state now k ScenarioState.running p.scenarios).0)
        × ((launch uuids now k row_id instance_id s p).0.active_scenarios
            ≡ insert k instance_id p.active_scenarios)
        × ((launch uuids now k row_id instance_id s p).1.0 ≢ returned false)
  unfolding launch
  launch-effects s = elim (Option-cases (loads no_context s.context)) [
    | inl e ↦ rw (e, launch) (refl, refl, λ d. cc)
    | inr (c, e) ↦ elim (Option-cases (loads (or_empty none) s.config)) [
      | inl f ↦ rw (e, f, launch) (refl, refl, λ d. cc)
      | inr (config, f) ↦ rw (e, f, launch) (refl, refl, λ d. cc)
    ]
  ]

-- On a table with unique keys, a scenario that `start_scenario` reports as started has a row whose state
-- the machine lets run; that row is `running` from now on, no other scenario changes, and the instance
-- is the active one.
pub start_scenario-started :
    (uuids : ℕ → String) (now : ℕ) (k : String) (row_id instance_id : ℕ) (p : Platform)
    → IsKeyed scenario_model p.scenarios
    → (start_scenario uuids now k row_id instance_id p).1.0 ≡ returned true
    → ((s : Scenario) × (find_by_scenario_id k p.scenarios ≡ some s)
        × (can_transition (scenario_machine s.state) ScenarioState.running ≡ true))
      × ((start_scenario uuids now k row_id instance_id p).0.scenarios
          ≡ map (at scenario_model k (set_state now ScenarioState.running)) p.scenarios)
      × (lookup k (start_scenario uuids now k row_id instance_id p).0.active_scenarios
          ≡ some instance_id)
start_scenario-started uuids now k row_id instance_id p h d =
    elim (Option-cases (find_by_scenario_id k p.scenarios)) [
      | inl absent ↦ cc (ap (λ q. q.1.0) (start_absent uuids now k row_id instance_id p absent), d)
      | inr (s, found) ↦
          elim (Bool-cases (can_transition (scenario_machine s.state) ScenarioState.running)) [
            | inl may ↦
                let same = start_allowed uuids now k row_id instance_id p s found may in
                let effects = launch-effects uuids now k row_id instance_id p s in
                (
                  (s, found, may),
                  ap (λ q. q.0.scenarios) same
                      ∙ effects.0
                      ∙ ap (λ q. q.0)
                          (update_scenario_state-at now k p.scenarios h ScenarioState.running),
                  ap (λ q. lookup k q.0.active_scenarios) same
                      ∙ ap (lookup k) effects.1
                      ∙ lookup-insert k k instance_id p.active_scenarios
                      ∙ ground arith,
                )
            | inr refused ↦ cc (
              ap (λ q. q.1.0) (start_forbidden uuids now k row_id instance_id p s found refused),
              d,
            )
          ]
    ]

-- A start that answers false, for want of a row or by the machine, changes nothing.
pub start_scenario-refused :
    (uuids : ℕ → String) (now : ℕ) (k : String) (row_id instance_id : ℕ) (p : Platform)
    → (start_scenario uuids now k row_id instance_id p).1.0 ≡ returned false
    → (start_scenario uuids now k row_id instance_id p).0 ≡ p
start_scenario-refused uuids now k row_id instance_id p d =
    elim (Option-cases (find_by_scenario_id k p.scenarios)) [
      | inl absent ↦ ap (λ q. q.0) (start_absent uuids now k row_id instance_id p absent)
      | inr (s, found) ↦
          elim (Bool-cases (can_transition (scenario_machine s.state) ScenarioState.running)) [
            | inl may ↦
                let same = start_allowed uuids now k row_id instance_id p s found may in
                absurd (
                  (launch-effects uuids now k row_id instance_id p s).2
                    (sym (ap (λ q. q.1.0) same) ∙ d))
            | inr refused ↦
                ap (λ q. q.0) (start_forbidden uuids now k row_id instance_id p s found refused)
          ]
    ]
