-- ===== src/StateMachine/Samples.antt =====
-- Runs of the two machines, and the theorems at concrete states.
use agent_server_platform.Base.{◌≡◌, refl, ◌≢◌, ◌⊎◌, true, false, [], ◌∷◌}
use agent_server_platform.StateMachine.{
  TaskState, ScenarioState, TaskState-discrete, ScenarioState-discrete, task_state_eq,
  scenario_state_eq, transition, can_transition, initialize, task_state_machine,
  scenario_state_machine, is_terminal, task_machine,
}
use agent_server_platform.StateMachine.Attempts.{attempts, ◌⟶*◌, attempts-⟶*, scenario_ends}

program : Unit {0}
unfolding attempts transition can_transition initialize task_state_machine scenario_state_machine
    is_terminal TaskState-discrete ScenarioState-discrete
program = tt

-- Running, an attempt to go back to `pending` that is refused, then success.
retry_refused :
    attempts
      (task_machine TaskState.pending)
      (TaskState.running ∷ TaskState.pending ∷ TaskState.success ∷ [])
    ≡ (task_machine TaskState.success, true ∷ false ∷ true ∷ [])
unfolding program
retry_refused = refl

attempts-⟶*_example :
    (u : TaskState) × ((attempts (task_machine TaskState.pending) (TaskState.running ∷ [])).0
      ≡ task_machine u)
    × (TaskState.pending ⟶* u)
attempts-⟶*_example = attempts-⟶* TaskState.pending (TaskState.running ∷ [])

scenario_ends_example :
    ((ScenarioState.cancelled ≢ ScenarioState.completed)
      × (ScenarioState.cancelled ≢ ScenarioState.failed))
    × ((ScenarioState.cancelled ≢ ScenarioState.cancelled)
        ⊎ (ScenarioState.running ≡ ScenarioState.running))
unfolding program
scenario_ends_example = scenario_ends ScenarioState.cancelled ScenarioState.running refl
