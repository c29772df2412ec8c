-- ===== src/ScenarioManager/Recovery.antt =====
-- `recover_orphans_on_startup` of src/scenarios/scenario_manager.py.
pub mod Orphans
use agent_server_platform.Base.{
  ℕ, ◌+◌, String, Bool, true, false, ◌||◌, Option, none, some, List, [], ◌∷◌, if◌then◌else◌, ltb,
  length,
}
use agent_server_platform.StateMachine.{TaskState, ScenarioState}
use agent_server_platform.Database.Tasks.{Task, find_by_state, mark_as_failed}
use agent_server_platform.Database.Scenarios.{Scenario}
use agent_server_platform.Database.Scenarios as Scenarios
use agent_server_platform.Platform.{Platform, emit, orphans_marked}

abbrev pub orphan_states : List TaskState
orphan_states = TaskState.pending ∷ TaskState.running ∷ TaskState.waiting ∷ []

module _ (now : ℕ) where
  unfoldable pub fail_scenarios : List Scenario → List Scenario → List Scenario
  fail_scenarios [] rows = rows
  fail_scenarios (s ∷ ss) rows =
      fail_scenarios ss (Scenarios.mark_as_failed now s.scenario_id rows).0

  unfoldable pub fail_tasks : List Task → List Task → List Task
  fail_tasks [] rows = rows
  fail_tasks (t ∷ ts) rows =
      fail_tasks ts (mark_as_failed now t.task_id "Orphaned by platform restart" rows).0

  -- `for state in ("pending", "running", "waiting")`, with the number of tasks.
  unfoldable pub fail_states : List TaskState → List Task → List Task × ℕ
  unfolding fail_tasks
  fail_states [] rows = (rows, 0)
  fail_states (state ∷ states) rows =
      let found = find_by_state state rows in
      let (last, n) = fail_states states (fail_tasks found rows) in (last, length found + n)

  unfoldable pub recover_orphans_on_startup : Platform → Platform
  unfolding fail_scenarios fail_states
  recover_orphans_on_startup p =
      let running = Scenarios.find_by_state ScenarioState.running p.scenarios in
      let (tasks, n_tasks) = fail_states orphan_states p.tasks in
      let recovered = record p { scenarios = fail_scenarios running p.scenarios; tasks = tasks } in
      if ltb 0 (length running) || ltb 0 n_tasks
      then emit (orphans_marked (length running) n_tasks) recovered
      else recovered
