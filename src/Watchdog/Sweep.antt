-- ===== src/Watchdog/Sweep.antt =====
-- What one sweep of the watchdog does to the table, row by row.
use agent_server_platform.Base.{
  ℕ, ◌+◌, ◌≤◌, ◌<◌, String, ◌≡◌, refl, ◌≢◌, Bool, true, false, Option, none, some, List, [], ◌∷◌,
  map, arith, ◌==◌, string_eq, if◌then◌else◌, ltb, All, All-weaken, All-intro, map-same, All-zip,
  All-select, map-eq_of_All, map-map, count, contains, count-contains, select-count,
  count-map-select-le, ne_of_count_zero, not-contains_of_count_zero, Bool-cases, inl, inr, ap, sym,
  ◌∙◌, select, Option-cases,
}
use agent_server_platform.StateMachine.{TaskState, TaskState-discrete, task_state_eq}
use agent_server_platform.Database.Query.{All-sort_by, count-sort_by, sort_by, limited}
use agent_server_platform.Database.Tasks.{
  Task, instant, find_by_state, increment_retry_count, set_state, increment_retry, newer,
}
use agent_server_platform.Database.Tasks.Update.{
  IsKeyed, find, at, update_task_state-at, increment_retry_count-at,
}
use agent_server_platform.Database.Tasks.Keys.{
  KeepsKeys, at-KeepsKeys, map-IsKeyed, find-at, at-at, at-eq_of_find, All-found, IsKeyed-count,
}
use agent_server_platform.Watchdog.{
  retries, max_retries, elapsed_over, attempt_recovery, check_task, check_each, check_timeouts,
}

-- The recovery of one row: back to `pending` with one more retry counted while retries are left,
-- and `timeout` from then on.
unfoldable pub recovered : ℕ → Task → Task
recovered stamp t =
    if ltb (retries t) (max_retries t)
    then record t {
      state = TaskState.pending;
      retry_count = some (retries t + 1);
      updated_at = some (instant stamp);
    }
    else record t { state = TaskState.timeout; updated_at = some (instant stamp) }

module _ (fromisoformat : String → Option ℕ) (now stamp : ℕ) where
  unfoldable pub is_overdue : Task → Bool
  is_overdue t = elim (elapsed_over fromisoformat now t) [ none ↦ false | some _ ↦ true ]

  -- What a sweep makes of a row: only a running row past its timeout is recovered.
  unfoldable pub swept : Task → Task
  swept t =
      if t.state == TaskState.running then if is_overdue t then recovered stamp t else t else t

  pub swept-KeepsKeys : KeepsKeys swept
  unfolding swept recovered
  swept-KeepsKeys t = ground arith

  attempt_recovery-at :
      (t : Task) (rows : List Task)
      → IsKeyed rows
      → find t.task_id rows ≡ some t
      → (attempt_recovery fromisoformat now stamp t rows).0
        ≡ map (at t.task_id (recovered stamp)) rows
  unfolding attempt_recovery recovered
  attempt_recovery-at t rows h e = elim (Bool-cases (ltb (retries t) (max_retries t))) [
    | inl left ↦ rw left (
        ap (λ rs. (increment_retry_count stamp t.task_id rs).0)
          (ap (λ p. p.0) (update_task_state-at stamp t.task_id rows h TaskState.pending))
        ∙ ap (λ p. p.0)
            (increment_retry_count-at stamp t.task_id (map (at t.task_id pended) rows) (
              map-IsKeyed (at t.task_id pended) rows
                (at-KeepsKeys t.task_id pended (λ u. (refl, refl))) h))
        ∙ at-at t.task_id (increment_retry stamp) pended rows (λ u. (refl, refl))
        ∙ at-eq_of_find t.task_id _ (recovered stamp) rows t h e (rw left))
    | inr spent ↦ rw spent (
        ap (λ p. p.0) (update_task_state-at stamp t.task_id rows h TaskState.timeout)
        ∙ at-eq_of_find t.task_id _ (recovered stamp) rows t h e (rw spent))
  ]
    where
      pended : Task → Task
      pended = set_state stamp TaskState.pending

  pub swept_over :
      (t : Task) → t.state ≡ TaskState.running → is_overdue t ≡ true → swept t ≡ recovered stamp t
  unfolding swept
  swept_over t run over = ground arith

  pub swept_fresh : (t : Task) → is_overdue t ≡ false → swept t ≡ t
  unfolding swept
  swept_fresh t fresh = ground arith

  -- One round of the loop changes the row of its task, and only that.
  check_task-at :
      (t : Task) (rows : List Task)
      → IsKeyed rows
      → find t.task_id rows ≡ some t
      → t.state ≡ TaskState.running
      → (check_task fromisoformat now stamp t rows).0 ≡ map (at t.task_id swept) rows
  unfolding check_task is_overdue
  check_task-at t rows h e run = elim (Option-cases (elapsed_over fromisoformat now t)) [
    | inl fresh ↦
        let same = swept_fresh t (rw (fresh, is_overdue)) in
        rw (fresh, check_task)
          (sym (map-same (at t.task_id (λ u. u)) rows (All-intro rows (λ u. ground arith)))
            ∙ at-eq_of_find t.task_id (λ u. u) swept rows t h e (sym same))
    | inr (n, over) ↦
        let same = swept_over t run (rw (over, is_overdue)) in
        rw (over, check_task)
          (attempt_recovery-at t rows h e
            ∙ at-eq_of_find t.task_id (recovered stamp) swept rows t h e (sym same))
  ]

  -- A row is swept if the snapshot that the loop runs over names it.
  named : List Task → Task → Task
  named ts r = if contains (map (λ t. t.task_id) ts) r.task_id then swept r else r

  named-cons :
      (t : Task) (ts rows : List Task)
      → count t.task_id (map (λ u. u.task_id) ts) ≡ 0
      → map (named ts) (map (at t.task_id swept) rows) ≡ map (named (t ∷ ts)) rows
  unfolding named contains
  named-cons t ts rows absent =
      map-map (named ts) (at t.task_id swept) rows
      ∙ map-eq_of_All (λ r. named ts (at t.task_id swept r)) (named (t ∷ ts)) rows
          (All-intro rows (λ r. ground (
            arith,
            swept-KeepsKeys r,
            not-contains_of_count_zero t.task_id (map (λ u. u.task_id) ts) absent,
          )))

  check_each-named :
      (ts rows : List Task)
      → IsKeyed rows
      → All (λ t. (find t.task_id rows ≡ some t) × (t.state ≡ TaskState.running)) ts
      → ((k : String) → count k (map (λ t. t.task_id) ts) ≤ 1)
      → (check_each fromisoformat now stamp ts rows).0 ≡ map (named ts) rows
  unfolding check_each named contains
  check_each-named [] rows h found once =
      sym (map-same (named []) rows (All-intro rows (λ u. refl)))
  check_each-named (t ∷ ts) rows h found once =
      let key = λ (u : Task). u.task_id in
      let absent : count t.task_id (map key ts) ≡ 0 =
        unfold count in ground (arith, once t.task_id) in
      let rest : (k : String) → count k (map key ts) ≤ 1 =
        λ k. unfold count in ground (arith, once k) in
      let still =
        All-weaken ts
          (λ u h. (
            find-at swept u.task_id t.task_id rows swept-KeepsKeys ∙ ground (arith, h.0, h.1.0),
            h.1.1,
          ))
          (All-zip (λ u. u.task_id ≢ t.task_id) _ ts (ne_of_count_zero key t.task_id ts absent)
            found.1) in
      rw (check_task-at t rows h found.0.0 found.0.1) (
        check_each-named ts (map (at t.task_id swept) rows)
          (map-IsKeyed (at t.task_id swept) rows (at-KeepsKeys t.task_id swept swept-KeepsKeys) h)
          still rest
        ∙ named-cons t ts rows absent)

  running_named :
      (rows : List Task) (r : Task)
      → (r.state ≡ TaskState.running
          → 0
            < count r.task_id
                (map (λ t. t.task_id) (select (λ t. t.state == TaskState.running) rows)))
      → named (find_by_state TaskState.running rows) r ≡ swept r
  unfolding named find_by_state limited
  running_named rows r h = elim (TaskState-discrete r.state TaskState.running) [
    | yes run ↦
        let key = λ (t : Task). t.task_id in
        let chosen = select (λ (t : Task). t.state == TaskState.running) rows in
        let counted : 0 < count r.task_id (map key (sort_by newer chosen)) =
          omega (arith, h run, count-sort_by newer key r.task_id chosen) in
        rw (count-contains r.task_id (map key (sort_by newer chosen)) counted)
    | no idle ↦ unfold swept in ground arith
  ]

-- One sweep over a table with unique keys recovers exactly the running rows whose time since
-- `started_at` is over their timeout, and leaves every other row as it is. A recovered row goes back
-- to `pending` with one more retry while its retries are below its limit, and to `timeout` after.
pub check_timeouts-map :
    (fromisoformat : String → Option ℕ) (now stamp : ℕ) (rows : List Task)
    → IsKeyed rows
    → (check_timeouts fromisoformat now stamp rows).0 ≡ map (swept fromisoformat now stamp) rows
unfolding check_timeouts find_by_state limited
check_timeouts-map parse now stamp rows h =
    let key = λ (t : Task). t.task_id in
    let is_running = λ (t : Task). t.state == TaskState.running in
    let chosen = select is_running rows in
    check_each-named parse now stamp (sort_by newer chosen) rows h
      (All-weaken (sort_by newer chosen) (λ t p. (p.0, ground (arith, p.1)))
        (All-sort_by newer _ chosen (All-select _ is_running rows (All-found rows h))))
      (λ k. omega (
        arith,
        count-sort_by newer key k chosen,
        count-map-select-le key k is_running rows,
        IsKeyed-count rows k h,
      ))
    ∙ map-eq_of_All _ _ rows (
        All-weaken rows
          (λ r p. running_named parse now stamp rows r (λ run. p (ground (arith, run))))
          (select-count key is_running rows))
