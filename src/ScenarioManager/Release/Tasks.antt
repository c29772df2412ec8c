-- ===== src/ScenarioManager/Release/Tasks.antt =====
-- What `_release_scenario_agents` leaves behind: the rows of its tasks and its offsets.
use agent_server_platform.Base.{
  ℕ, String, ◌≡◌, refl, sym, ap, ◌∙◌, Option, none, some, List, [], ◌∷◌, map, arith, string_eq,
  if◌then◌else◌, All-intro, map-same, Bool-cases, inl, inr,
}
use agent_server_platform.StateMachine.{is_terminal}
use agent_server_platform.Database.Query.{column_is, find_by_criteria, limited}
use agent_server_platform.Database.Table.Sweep as Sweep
use agent_server_platform.Database.Tasks.{Task, failed_with, mark_as_failed, find_by_scenario_id}
use agent_server_platform.Database.Tasks.Update.{IsKeyed, find, at, mark_as_failed-at}
use agent_server_platform.Database.Tasks.Keys.{KeepsKeys, at-eq_of_find}
use agent_server_platform.Database.Tasks.Loops.{task_model, each-select}
use agent_server_platform.Platform.{Platform, emit_if-tasks}
use agent_server_platform.ScenarioManager.Release.{
  Progress, cancel_task, release_run, release_each, release_scenario_agents,
}

-- What the end of its scenario makes of a task.
unfoldable pub cancelled : ℕ → Task → Task
cancelled now t = if is_terminal t.state then t else failed_with now "Cancelled: scenario ended" t

-- The table after one round of the loop.
cancel_row : ℕ → Task → List Task → List Task
cancel_row now t rows =
    if is_terminal t.state
    then rows
    else (mark_as_failed now t.task_id "Cancelled: scenario ended" rows).0

release_run-tasks : (o : Option String) (w : Progress) → (release_run o w).tasks ≡ w.tasks
unfolding release_run
release_run-tasks none w = refl
release_run-tasks (some run_id) w = ground arith

release_each-tasks :
    (now : ℕ) (ts : List Task) (w : Progress)
    → (release_each now ts w).tasks ≡ Sweep.each task_model (cancel_row now) ts w.tasks
unfolding release_each Sweep.each
release_each-tasks now [] w = refl
release_each-tasks now (t ∷ ts) w =
    release_each-tasks now ts (release_run t.agent_run_id (cancel_task now t w))
    ∙ ap (Sweep.each task_model (cancel_row now) ts) (
        release_run-tasks t.agent_run_id (cancel_task now t w)
        ∙ (unfold cancel_task in unfold cancel_row in ground arith))

cancelled-KeepsKeys : (now : ℕ) → KeepsKeys (cancelled now)
unfolding cancelled
cancelled-KeepsKeys now t = ground arith

cancel_row-at :
    (now : ℕ) (t : Task) (rows : List Task)
    → IsKeyed rows
    → find t.task_id rows ≡ some t
    → cancel_row now t rows ≡ map (at t.task_id (cancelled now)) rows
unfolding cancel_row
cancel_row-at now t rows h e = elim (Bool-cases (is_terminal t.state)) [
  | inl over ↦ rw over (
      sym (map-same (at t.task_id (λ u. u)) rows (All-intro rows (λ u. ground arith)))
      ∙ at-eq_of_find t.task_id (λ u. u) (cancelled now) rows t h e
          (unfold cancelled in ground (arith, over)))
  | inr alive ↦ rw alive (
      ap (λ q. q.0) (mark_as_failed-at now t.task_id rows h "Cancelled: scenario ended")
      ∙ at-eq_of_find t.task_id (failed_with now "Cancelled: scenario ended") (cancelled now) rows t
          h e (unfold cancelled in ground (arith, alive)))
]

-- On a table with unique keys the end of a scenario fails each of its tasks that is not in a terminal
-- state, with the reason, and changes no other row: neither a finished task nor another scenario's.
pub release_scenario_agents-tasks :
    (now : ℕ) (scenario_id : String) (p : Platform)
    → IsKeyed p.tasks
    → (release_scenario_agents now scenario_id p).tasks
      ≡ map (λ t. if column_is scenario_id t.scenario_id then cancelled now t else t) p.tasks
unfolding release_scenario_agents find_by_scenario_id find_by_criteria limited
release_scenario_agents-tasks now scenario_id p h =
    emit_if-tasks _ _ _
    ∙ release_each-tasks now _ _
    ∙ each-select (cancel_row now) (cancelled now) (cancelled-KeepsKeys now) (cancel_row-at now)
        (λ t. column_is scenario_id t.scenario_id) p.tasks h
