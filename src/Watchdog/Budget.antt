-- ===== src/Watchdog/Budget.antt =====
-- How often the watchdog retries a task, and how its recoveries stand to the state machine.
use agent_server_platform.Base.{
  ℕ, ◌+◌, ◌*◌, ◌<◌, ◌≤◌, String, ◌≡◌, refl, sym, subst, ap, ap₂, ◌∙◌, inl, inr, true, false, Option,
  some, option_map, List, [], ◌∷◌, ◌++◌, arith, ltb, ◌==◌, string_eq, All, length, map, Bool-cases,
}
use agent_server_platform.StateMachine.{
  TaskState, TaskState-discrete, task_state_eq, can_transition, initialize, task_state_machine,
  task_machine,
}
use agent_server_platform.Database.Tasks.{Task, started, mark_as_started}
use agent_server_platform.Database.Tasks.Update.{IsKeyed, find, at, mark_as_started-at}
use agent_server_platform.Database.Tasks.Keys.{
  KeepsKeys, at-KeepsKeys, map-IsKeyed, find-map, find-at,
}
use agent_server_platform.Watchdog.{
  second, timeout_seconds, retries, max_retries, start_time, elapsed_over, check_timeouts,
}
use agent_server_platform.Watchdog.Sweep.{
  recovered, is_overdue, swept, swept_over, swept-KeepsKeys, check_timeouts-map,
}

-- A run that is started at `start` and found by a sweep at `now`.
pub record Run : Type 0 where
  pub start : ℕ
  pub now : ℕ
  pub stamp : ℕ

module _ (fromisoformat : String → Option ℕ) where
  -- The task is started again and the next sweep comes.
  unfoldable relapse : Run → Task → Task
  relapse r t = swept fromisoformat r.now r.stamp (started r.start t)

  unfoldable relapses : List Run → Task → Task
  unfolding relapse
  relapses [] t = t
  relapses (r ∷ rs) t = relapses rs (relapse r t)

  -- The sweep comes more than the task's timeout after its start.
  abbrev pub IsLate : ℕ → Run → Type 0
  IsLate timeout r = r.start + second * timeout < r.now

  relapse-recovered :
      (r : Run) (t : Task)
      → IsLate (timeout_seconds t) r
      → relapse r t ≡ recovered r.stamp (started r.start t)
  unfolding relapse
  relapse-recovered r t late =
      swept_over fromisoformat r.now r.stamp (started r.start t) refl
        (unfold is_overdue elapsed_over start_time in ground arith)

  relapse_retry :
      (r : Run) (t : Task)
      → IsLate (timeout_seconds t) r
      → retries t < max_retries t
      → let u = relapse r t in
        (u.state ≡ TaskState.pending)
        × (retries u ≡ retries t + 1)
        × (max_retries u ≡ max_retries t)
        × (timeout_seconds u ≡ timeout_seconds t)
  relapse_retry r t late left = rw (relapse-recovered r t late) (unfold recovered in ground arith)

  relapses_retried :
      (rs : List Run) (r : Run) (t : Task)
      → All (IsLate (timeout_seconds t)) (r ∷ rs)
      → retries t + length rs < max_retries t
      → let u = relapses (r ∷ rs) t in
        (u.state ≡ TaskState.pending) × (retries u ≡ retries t + length rs + 1)
  unfolding relapses
  relapses_retried [] r t late left = ground (arith, relapse_retry r t late.0)
  relapses_retried (s ∷ rs) r t late left =
      let (pended, counted, limit, timeout) = relapse_retry r t late.0 (omega arith) in
      let (p, q) =
        relapses_retried rs s (relapse r t)
          (subst (λ n. All (IsLate n) (s ∷ rs)) (sym timeout) late.1) (omega arith) in
      (p, omega arith)

  relapse_spent :
      (r : Run) (t : Task)
      → IsLate (timeout_seconds t) r
      → max_retries t ≤ retries t
      → (relapse r t).state ≡ TaskState.timeout
  relapse_spent r t late spent = rw (relapse-recovered r t late) (unfold recovered in ground arith)

  relapses_given_up :
      (rs : List Run) (r : Run) (t : Task)
      → All (IsLate (timeout_seconds t)) (rs ++ r ∷ [])
      → retries t + length rs ≡ max_retries t
      → (relapses (rs ++ r ∷ []) t).state ≡ TaskState.timeout
  unfolding relapses
  relapses_given_up [] r t late spent = relapse_spent r t late.0 (omega arith)
  relapses_given_up (s ∷ rs) r t late spent =
      let (_, counted, limit, timeout) = relapse_retry s t late.0 (omega arith) in
      relapses_given_up rs r (relapse s t)
        (subst (λ n. All (IsLate n) (rs ++ r ∷ [])) (sym timeout) late.1) (omega arith)

  -- The task is marked as started in the table, and the next sweep runs over the table.
  unfoldable pub restart : String → Run → List Task → List Task
  restart k r rows =
      (check_timeouts fromisoformat r.now r.stamp (mark_as_started r.start k rows).0).0

  unfoldable pub restarts : String → List Run → List Task → List Task
  unfolding restart
  restarts k [] rows = rows
  restarts k (r ∷ rs) rows = restarts k rs (restart k r rows)

  started-KeepsKeys : (now : ℕ) → KeepsKeys (started now)
  started-KeepsKeys now t = (refl, refl)

  restart-map :
      (k : String) (r : Run) (rows : List Task)
      → IsKeyed rows
      → restart k r rows
        ≡ map (swept fromisoformat r.now r.stamp) (map (at k (started r.start)) rows)
  unfolding restart
  restart-map k r rows h =
      let begun : (mark_as_started r.start k rows).0 ≡ map (at k (started r.start)) rows =
        ap (λ p. p.0) (mark_as_started-at r.start k rows h) in
      ap (λ rs. (check_timeouts fromisoformat r.now r.stamp rs).0) begun
      ∙ check_timeouts-map fromisoformat r.now r.stamp (map (at k (started r.start)) rows) (
          map-IsKeyed (at k (started r.start)) rows
            (at-KeepsKeys k (started r.start) (started-KeepsKeys r.start)) h)

  restart-IsKeyed :
      (k : String) (r : Run) (rows : List Task) → IsKeyed rows → IsKeyed (restart k r rows)
  restart-IsKeyed k r rows h = rw (restart-map k r rows h) (
      map-IsKeyed (swept fromisoformat r.now r.stamp) _
        (swept-KeepsKeys fromisoformat r.now r.stamp)
        (map-IsKeyed (at k (started r.start)) rows
          (at-KeepsKeys k (started r.start) (started-KeepsKeys r.start)) h))

  find-restart :
      (k : String) (r : Run) (rows : List Task) (t : Task)
      → IsKeyed rows
      → find k rows ≡ some t
      → find k (restart k r rows) ≡ some (relapse r t)
  unfolding relapse
  find-restart k r rows t h e =
      let begun : find k (map (at k (started r.start)) rows) ≡ some (started r.start t) =
        find-at (started r.start) k k rows (started-KeepsKeys r.start) ∙ ground (arith, e) in
      ap (find k) (restart-map k r rows h)
      ∙ find-map (swept fromisoformat r.now r.stamp) k (map (at k (started r.start)) rows)
          (swept-KeepsKeys fromisoformat r.now r.stamp)
      ∙ ap (option_map (swept fromisoformat r.now r.stamp)) begun

  find-restarts :
      (k : String) (rs : List Run) (rows : List Task) (t : Task)
      → IsKeyed rows
      → find k rows ≡ some t
      → find k (restarts k rs rows) ≡ some (relapses rs t)
  unfolding restarts relapses
  find-restarts k [] rows t h e = e
  find-restarts k (r ∷ rs) rows t h e =
      find-restarts k rs (restart k r rows) (relapse r t) (restart-IsKeyed k r rows h)
        (find-restart k r rows t h e)

  -- In a table with unique keys, take a task that is started again and again and that every sweep finds
  -- more than its timeout after its start. As long as its retries, with one for each run but the last,
  -- are below its limit, the sweeps leave its row `pending`, with one retry counted for each run.
  pub restarts_retried :
      (k : String) (rs : List Run) (r : Run) (rows : List Task) (t : Task)
      → IsKeyed rows
      → find k rows ≡ some t
      → All (IsLate (timeout_seconds t)) (r ∷ rs)
      → retries t + length rs < max_retries t
      → option_map {B = TaskState × ℕ}
          (λ u. (u.state, retries u))
          (find k (restarts k (r ∷ rs) rows))
        ≡ some (TaskState.pending, retries t + length rs + 1)
  restarts_retried k rs r rows t h e late left =
      let (p, q) = relapses_retried rs r t late left in
      ap (option_map {B = TaskState × ℕ} (λ u. (u.state, retries u)))
        (find-restarts k (r ∷ rs) rows t h e)
      ∙ ap some (ap₂ (λ a b. (a, b)) p q)

  -- In a table with unique keys, take a task that is started again and again and that every sweep finds
  -- more than its timeout after its start. When its retries, with one for each run but the last, have
  -- reached its limit, the last sweep leaves its row `timeout`.
  pub restarts_given_up :
      (k : String) (rs : List Run) (r : Run) (rows : List Task) (t : Task)
      → IsKeyed rows
      → find k rows ≡ some t
      → All (IsLate (timeout_seconds t)) (rs ++ r ∷ [])
      → retries t + length rs ≡ max_retries t
      → option_map (λ u. u.state) (find k (restarts k (rs ++ r ∷ []) rows)) ≡ some TaskState.timeout
  restarts_given_up k rs r rows t h e late spent =
      ap (option_map (λ u. u.state)) (find-restarts k (rs ++ r ∷ []) rows t h e)
      ∙ ap some (relapses_given_up rs r t late spent)

-- What may happen to a row in a sweep, by the row before and after it.
pub data Outcome (t : Task) : Task → Type 0 where
  kept : Outcome t t
  retried :
      {u : Task}
      → t.state ≡ TaskState.running
      → retries t < max_retries t
      → u.state ≡ TaskState.pending
      → can_transition (task_machine t.state) u.state ≡ false
      → Outcome t u
  given_up :
      {u : Task}
      → t.state ≡ TaskState.running
      → max_retries t ≤ retries t
      → u.state ≡ TaskState.timeout
      → can_transition (task_machine t.state) u.state ≡ true
      → Outcome t u

recovered-Outcome :
    (stamp : ℕ) (t : Task) → t.state ≡ TaskState.running → Outcome t (recovered stamp t)
unfolding recovered can_transition initialize task_state_machine TaskState-discrete
recovered-Outcome stamp t run = elim (Bool-cases (ltb (retries t) (max_retries t))) [
  | inl left ↦ retried run (ground arith) (rw left refl) (rw (run, left) refl)
  | inr spent ↦ given_up run (ground arith) (rw spent refl) (rw (run, spent) refl)
]

module _ (fromisoformat : String → Option ℕ) (now stamp : ℕ) where
  swept-Outcome : (t : Task) → Outcome t (swept fromisoformat now stamp t)
  unfolding swept
  swept-Outcome t = elim (Bool-cases (t.state == TaskState.running)) [
    | inl run ↦ elim (Bool-cases (is_overdue fromisoformat now stamp t)) [
      | inl over ↦ rw (run, over) (recovered-Outcome stamp t (ground arith))
      | inr fresh ↦ rw (run, fresh) kept
    ]
    | inr idle ↦ rw idle kept
  ]

  -- In a table with unique keys, a sweep leaves the row of a task as it was, or the task was `running`
  -- and the sweep puts it to `pending` while its retries are below its limit, which the task state
  -- machine refuses, or to `timeout` once they are not, which the machine allows.
  pub check_timeouts-Outcome :
      (k : String) (rows : List Task) (t : Task)
      → IsKeyed rows
      → find k rows ≡ some t
      → (u : Task) × (find k (check_timeouts fromisoformat now stamp rows).0 ≡ some u) × Outcome t u
  check_timeouts-Outcome k rows t h e = (
    swept fromisoformat now stamp t,
    ap (find k) (check_timeouts-map fromisoformat now stamp rows h)
        ∙ find-map (swept fromisoformat now stamp) k rows (swept-KeepsKeys fromisoformat now stamp)
        ∙ ap (option_map (swept fromisoformat now stamp)) e,
    swept-Outcome t,
  )
