-- ===== src/Watchdog.antt =====
-- src/core/watchdog.py: one sweep of `Watchdog._check_timeouts` with the recovery of each task.
-- `now` is the time at which the sweep begins, `stamp` the time of its writes, and `fromisoformat`
-- is `datetime.fromisoformat`, with none where it raises. The thread that repeats the sweep is the
-- caller of it.
pub mod Sweep
pub mod Budget
mod Samples
use agent_server_platform.Base.{
  ℕ, zero, suc, ◌+◌, ◌*◌, ◌-◌, String, Bool, true, false, Option, none, some, List, [], ◌∷◌, ◌++◌,
  ◌==◌, string_eq, if◌then◌else◌, ltb,
}
use agent_server_platform.StateMachine.{TaskState, task_state_eq}
use agent_server_platform.Database.Tasks.{
  Task, Timestamp, instant, text, or_default, find_by_state, update_task_state,
  increment_retry_count,
}

-- The events that a sweep emits.
pub data Notice : Type 0 where
  timeout_detected : (task_id : String) (elapsed : ℕ) → Notice
  recovery_attempted : (task_id : String) (retry_count : ℕ) → Notice
  recovery_failed : (task_id : String) → Notice

-- A float number of seconds, counted in microseconds.
abbrev pub second : ℕ
second = 1000000

abbrev pub timeout_seconds : Task → ℕ
timeout_seconds t = or_default t.timeout_seconds 3600

abbrev pub retries : Task → ℕ
retries t = or_default t.retry_count 0

abbrev pub max_retries : Task → ℕ
max_retries t = or_default t.max_retries 3

module _ (fromisoformat : String → Option ℕ) where
  -- The `continue`s before the test: no start time, or one that cannot be read.
  unfoldable pub start_time : Option Timestamp → Option ℕ
  start_time none = none
  start_time (some (instant n)) = some n
  start_time (some (text s)) = if s == "" then none else fromisoformat s

  -- `elapsed > timeout_seconds`, with the elapsed time where it holds.
  unfoldable pub elapsed_over : ℕ → Task → Option ℕ
  elapsed_over now t = elim (start_time t.started_at) [
    | none ↦ none
    | some s ↦ if ltb (s + second * timeout_seconds t) now then some (now - s) else none
  ]

  module _ (now stamp : ℕ) where
    -- `_attempt_recovery(task.task_id, task)`
    unfoldable pub attempt_recovery : Task → List Task → List Task × List Notice
    attempt_recovery t rows =
        if ltb (retries t) (max_retries t)
        then (
          (increment_retry_count stamp t.task_id
              (update_task_state stamp t.task_id TaskState.pending rows).0).0,
          recovery_attempted t.task_id (retries t + 1) ∷ [],
        )
        else (
          (update_task_state stamp t.task_id TaskState.timeout rows).0,
          recovery_failed t.task_id ∷ [],
        )

    -- The body of the `for` loop.
    unfoldable pub check_task : Task → List Task → List Task × List Notice
    check_task t rows = elim (elapsed_over now t) [
      | none ↦ (rows, [])
      | some elapsed ↦
          let (after, notices) = attempt_recovery t rows in
          (after, timeout_detected t.task_id elapsed ∷ notices)
    ]

    unfoldable pub check_each : List Task → List Task → List Task × List Notice
    check_each [] rows = (rows, [])
    check_each (t ∷ ts) rows =
        let (after, notices) = check_task t rows in
        let (last, more) = check_each ts after in (last, notices ++ more)

    unfoldable pub check_timeouts : List Task → List Task × List Notice
    check_timeouts rows = check_each (find_by_state TaskState.running rows) rows
