-- ===== src/ScenarioManager/Recovery/Orphans.antt =====
-- What a recovery at startup makes of the rows of scenarios and of tasks.
use agent_server_platform.Base.{
  ℕ, ◌≡◌, refl, ap, ◌∙◌, false, List, [], ◌∷◌, map, arith, string_eq, ◌==◌, if◌then◌else◌,
  All-intro, map-map, map-eq_of_All, contains, map-same, sym,
}
use agent_server_platform.StateMachine.{
  TaskState, TaskState-discrete, task_state_eq, ScenarioState, scenario_state_eq,
}
use agent_server_platform.Database.Query.{limited}
use agent_server_platform.Database.Table.Keyed as Keyed
use agent_server_platform.Database.Table.Sweep as Sweep
use agent_server_platform.Database.Tasks.{Task, failed_with, mark_as_failed, find_by_state}
use agent_server_platform.Database.Tasks.Update.{IsKeyed, mark_as_failed-at}
use agent_server_platform.Database.Tasks.Keys.{KeepsKeys, map-IsKeyed}
use agent_server_platform.Database.Tasks.Loops.{task_model, each-select}
use agent_server_platform.Database.Scenarios.{Scenario, scenario_model, newer, ended}
use agent_server_platform.Database.Scenarios as Scenarios
use agent_server_platform.Database.Scenarios.Writers as Writers
use agent_server_platform.Platform.{Platform, emit_if-tasks, emit_if-scenarios}
use agent_server_platform.ScenarioManager.Recovery.{
  fail_scenarios, fail_tasks, fail_states, orphan_states, recover_orphans_on_startup,
}

-- What a restart makes of a task that had not ended in one of the given states.
unfoldable pub orphaned : List TaskState → ℕ → Task → Task
orphaned states now t =
    if contains states t.state then failed_with now "Orphaned by platform restart" t else t

unfoldable pub orphaned_scenario : ℕ → Scenario → Scenario
orphaned_scenario now s =
    if s.state == ScenarioState.running then ended now ScenarioState.failed s else s

fail_row : ℕ → Task → List Task → List Task
fail_row now t rows = (mark_as_failed now t.task_id "Orphaned by platform restart" rows).0

fail_tasks-each :
    (now : ℕ) (ts rows : List Task)
    → fail_tasks now ts rows ≡ Sweep.each task_model (fail_row now) ts rows
unfolding fail_tasks Sweep.each fail_row
fail_tasks-each now [] rows = refl
fail_tasks-each now (t ∷ ts) rows = fail_tasks-each now ts _

-- One pass over the rows of a state.
fail_tasks-map :
    (now : ℕ) (state : TaskState) (rows : List Task)
    → IsKeyed rows
    → fail_tasks now (find_by_state state rows) rows ≡ map (orphaned (state ∷ []) now) rows
unfolding find_by_state limited
fail_tasks-map now state rows h =
    fail_tasks-each now _ rows
    ∙ each-select (fail_row now) (failed_with now "Orphaned by platform restart")
        (λ t. (refl, refl))
        (λ t rs k e.
          unfold fail_row in
          ap (λ q. q.0) (mark_as_failed-at now t.task_id rs k "Orphaned by platform restart"))
        (λ t. t.state == state) rows h
    ∙ map-eq_of_All
        (λ t. if t.state == state then failed_with now "Orphaned by platform restart" t else t)
        (orphaned (state ∷ []) now) rows
        (All-intro rows (λ t. unfold orphaned in unfold contains in ground arith))

orphaned-KeepsKeys : (states : List TaskState) (now : ℕ) → KeepsKeys (orphaned states now)
unfolding orphaned
orphaned-KeepsKeys states now t = ground arith

fail_states-map :
    (now : ℕ) (states : List TaskState) (rows : List Task)
    → IsKeyed rows
    → contains states TaskState.failed ≡ false
    → (fail_states now states rows).0 ≡ map (orphaned states now) rows
unfolding fail_states contains orphaned
fail_states-map now [] rows h c = sym (map-same (orphaned [] now) rows (All-intro rows (λ t. refl)))
fail_states-map now (state ∷ states) rows h c = rw (fail_tasks-map now state rows h) (
    fail_states-map now states (map (orphaned (state ∷ []) now) rows)
      (map-IsKeyed (orphaned (state ∷ []) now) rows (orphaned-KeepsKeys (state ∷ []) now) h)
      (ground arith)
    ∙ map-map (orphaned states now) (orphaned (state ∷ []) now) rows
    ∙ map-eq_of_All (λ t. orphaned states now (orphaned (state ∷ []) now t))
        (orphaned (state ∷ states) now) rows
        (All-intro rows (λ t. unfold orphaned in unfold contains in ground arith)))

fail_scenario : ℕ → Scenario → List Scenario → List Scenario
fail_scenario now s rows = (Scenarios.mark_as_failed now s.scenario_id rows).0

fail_scenarios-each :
    (now : ℕ) (ss rows : List Scenario)
    → fail_scenarios now ss rows ≡ Sweep.each scenario_model (fail_scenario now) ss rows
unfolding fail_scenarios Sweep.each fail_scenario
fail_scenarios-each now [] rows = refl
fail_scenarios-each now (s ∷ ss) rows = fail_scenarios-each now ss _

fail_scenarios-map :
    (now : ℕ) (rows : List Scenario)
    → Keyed.IsKeyed scenario_model rows
    → fail_scenarios now (Scenarios.find_by_state ScenarioState.running rows) rows
      ≡ map (orphaned_scenario now) rows
unfolding Scenarios.find_by_state limited orphaned_scenario
fail_scenarios-map now rows h =
    fail_scenarios-each now _ rows
    ∙ Sweep.each-select scenario_model (fail_scenario now) (ended now ScenarioState.failed)
        (λ s. (refl, refl))
        (λ s rs k e.
          unfold fail_scenario in ap (λ q. q.0) (Writers.mark_as_failed-at now s.scenario_id rs k))
        (λ s. s.state == ScenarioState.running) newer rows h

-- On tables with unique keys, a restart of the platform fails every scenario that was running and every
-- task that was pending, running or waiting, and changes no other row.
pub recover_orphans_on_startup-map :
    (now : ℕ) (p : Platform)
    → Keyed.IsKeyed scenario_model p.scenarios
    → IsKeyed p.tasks
    → ((recover_orphans_on_startup now p).scenarios ≡ map (orphaned_scenario now) p.scenarios)
      × ((recover_orphans_on_startup now p).tasks ≡ map (orphaned orphan_states now) p.tasks)
unfolding recover_orphans_on_startup
recover_orphans_on_startup-map now p hs ht = (
  emit_if-scenarios _ _ _ ∙ fail_scenarios-map now p.scenarios hs,
  emit_if-tasks _ _ _
      ∙ fail_states-map now orphan_states p.tasks ht
          (unfold contains in unfold TaskState-discrete in refl),
)
