-- ===== src/Watchdog/Samples.antt =====
-- A table with an overdue task, a fresh one and a finished one, and the theorems at it.
use agent_server_platform.Base.{
  ℕ, ◌+◌, ◌*◌, String, ◌≡◌, refl, Option, none, some, List, [], ◌∷◌, map, option_map, arith,
  string_eq, nat_eq, select, ne_of_test,
}
use agent_server_platform.StateMachine.{TaskState, TaskState-discrete, task_state_eq}
use native.Mathlib.Decide.{ℕ_discrete}
use agent_server_platform.Database.Query.{limited, sort_by}
use agent_server_platform.Database.Tasks.{
  Task, instant, modify, find_by_task_id, find_by_state, update, update_task_state,
  increment_retry_count,
}
use agent_server_platform.Database.Tasks.Update.{IsKeyed, find}
use agent_server_platform.Watchdog.{
  timeout_detected, recovery_attempted, second, retries, start_time, elapsed_over, attempt_recovery,
  check_task, check_each, check_timeouts,
}
use agent_server_platform.Watchdog.Sweep.{swept, check_timeouts-map}
use agent_server_platform.Watchdog.Budget.{
  restarts, Outcome, restarts_retried, restarts_given_up, check_timeouts-Outcome, Run,
}

abbrev task : ℕ → String → TaskState → ℕ → Task
task id task_id state start = record {
  id = id;
  task_id = task_id;
  agent_run_id = none;
  scenario_id = some "s";
  parent_task_id = none;
  topic_id = none;
  idempotency_key = none;
  depends_on = none;
  goal = "g";
  state = state;
  priority = some 0;
  timeout_seconds = some 60;
  max_retries = some 2;
  retry_count = some 1;
  context = none;
  result = none;
  error = none;
  agent_name = none;
  agent_role = none;
  execution_duration = none;
  created_at = id;
  updated_at = some (instant 0);
  started_at = some (instant start);
  completed_at = none;
}

abbrev rows : List Task
rows =
    task 1 "a" TaskState.running 0
    ∷ task 2 "b" TaskState.running (50 * second)
    ∷ task 3 "c" TaskState.success 0
    ∷ []

abbrev after : List Task
after =
    record (task 1 "a" TaskState.pending 0) { retry_count = some 2; updated_at = some (instant 7) }
    ∷ task 2 "b" TaskState.running (50 * second)
    ∷ task 3 "c" TaskState.success 0
    ∷ []

abbrev unreadable : String → Option ℕ
unreadable _ = none

check_timeouts-rows :
    check_timeouts unreadable (61 * second) 7 rows
    ≡ (after, timeout_detected "a" (61 * second) ∷ recovery_attempted "a" 2 ∷ [])
unfolding check_timeouts check_each check_task attempt_recovery elapsed_over start_time
    find_by_state update_task_state increment_retry_count modify find_by_task_id update string_eq
    TaskState-discrete limited sort_by select nat_eq ℕ_discrete
check_timeouts-rows = refl

rows-IsKeyed : IsKeyed rows
rows-IsKeyed = (
  ((omega arith, ne_of_test "b" "a" refl), ((omega arith, ne_of_test "c" "a" refl), tt)),
  (((omega arith, ne_of_test "c" "b" refl), tt), (tt, tt)),
)

check_timeouts-map_example :
    (check_timeouts unreadable (61 * second) 7 rows).0 ≡ map (swept unreadable (61 * second) 7) rows
check_timeouts-map_example = check_timeouts-map unreadable (61 * second) 7 rows rows-IsKeyed

abbrev late : ℕ → Run
late start = record { start = start; now = start + 61 * second; stamp = start + 61 * second }

restarts_retried_example :
    option_map {B = TaskState × ℕ}
      (λ u. (u.state, retries u))
      (find "a" (restarts unreadable "a" (late 0 ∷ []) rows))
    ≡ some (TaskState.pending, 2)
restarts_retried_example =
    restarts_retried unreadable "a" [] (late 0) rows (task 1 "a" TaskState.running 0) rows-IsKeyed
      (unfold find in unfold string_eq in refl) (omega arith) (omega arith)

restarts_given_up_example :
    option_map (λ u. u.state) (find "a" (restarts unreadable "a" (late 0 ∷ late 5 ∷ []) rows))
    ≡ some TaskState.timeout
restarts_given_up_example =
    restarts_given_up unreadable "a" (late 0 ∷ []) (late 5) rows (task 1 "a" TaskState.running 0)
      rows-IsKeyed (unfold find in unfold string_eq in refl) (omega arith) (omega arith)

check_timeouts-Outcome_example :
    (u : Task) × (find "a" (check_timeouts unreadable (61 * second) 7 rows).0 ≡ some u)
    × Outcome (task 1 "a" TaskState.running 0) u
check_timeouts-Outcome_example =
    check_timeouts-Outcome unreadable (61 * second) 7 "a" rows (task 1 "a" TaskState.running 0)
      rows-IsKeyed (unfold find in unfold string_eq in refl)
