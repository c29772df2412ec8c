-- ===== src/Dispatcher/Rows.antt =====
-- What a local run leaves in the tables.
use agent_server_platform.Base.{
  ℕ, ◌+◌, length, length-append, [], ◌∷◌, String, option_map, ◌≡◌, refl, Bool, false, Option, none,
  some, List, map, arith, string_eq, if◌then◌else◌, inl, inr, ◌∙◌, ap, Bool-cases,
}
use agent_server_platform.StateMachine.{TaskState, task_state_eq, is_terminal}
use agent_server_platform.Database.Tasks.{
  Task, Completion, or_stored, started, mark_as_started, completed, failed_with,
}
use agent_server_platform.Database.Tasks.Update.{
  IsKeyed, find, at, find_by_task_id-find, mark_as_started-at, mark_as_completed-at,
  mark_as_failed-at,
}
use agent_server_platform.Database.Tasks.Keys.{at-KeepsKeys, map-IsKeyed, find-at}
use agent_server_platform.Database.Messages.{Result, TaskMessage}
use agent_server_platform.Dispatcher.{
  reply_row, Stamp, Tables, Answer, returned, raised, or_text, succeeded, finalize_task, settle,
  already_terminal, run_task_locally,
}

-- The state of a task's row.
abbrev pub state_of : String → List Task → Option TaskState
state_of k rows = option_map (λ t. t.state) (find k rows)

state_of-at :
    (k : String) (f : Task → Task) (rows : List Task)
    → ((t : Task) → ((f t).id ≡ t.id) × ((f t).task_id ≡ t.task_id))
    → state_of k (map (at k f) rows) ≡ option_map (λ t. (f t).state) (find k rows)
state_of-at k f rows h = ground (arith, find-at f k k rows h)

started-IsKeyed :
    (now : ℕ) (k : String) (rows : List Task)
    → IsKeyed rows
    → IsKeyed (mark_as_started now k rows).0
started-IsKeyed now k rows h =
    rw (mark_as_started-at now k rows h)
      (map-IsKeyed (at k (started now)) rows (at-KeepsKeys k (started now) (λ t. (refl, refl))) h)

module _ (dumps : Result → String) where
  -- The outcome decides the state: success on a truthy `success`, failed otherwise; a task without a
  -- row stays without.
  finalize-state_of :
      (stamp : Stamp) (scenario_id : Option String) (k : String) (result : Result)
      (name role : Option String) (duration : Option ℕ) (tables : Tables)
      → IsKeyed tables.tasks
      → state_of k (finalize_task dumps stamp scenario_id k result name role duration tables).tasks
        ≡ option_map
            (λ t. if succeeded result then TaskState.success else TaskState.failed)
            (find k tables.tasks)
  unfolding finalize_task
  finalize-state_of stamp scenario_id k result name role duration tables h =
      let c : Completion = record {
        result = some (dumps result);
        agent_name = name;
        agent_role = role;
        execution_duration = duration;
      } in
      let error = or_text result.error "Unknown" in
      elim (Bool-cases (succeeded result)) [
        | inl e ↦
            rw (e, mark_as_completed-at stamp.now k tables.tasks h c)
              (state_of-at k
                (λ t. record (completed stamp.now c t) { result = or_stored c.result t.result })
                tables.tasks (λ t. (refl, refl)))
        | inr e ↦
            rw (e, mark_as_failed-at stamp.now k tables.tasks h error)
              (state_of-at k (failed_with stamp.now error) tables.tasks (λ t. (refl, refl)))
      ]

  length-finalize :
      (stamp : Stamp) (scenario_id : Option String) (k : String) (result : Result)
      (name role : Option String) (duration : Option ℕ) (tables : Tables)
      → length (finalize_task dumps stamp scenario_id k result name role duration tables).messages
        ≡ length tables.messages + 1
  unfolding finalize_task
  length-finalize stamp scenario_id k result name role duration tables =
      omega (arith, length-append tables.messages (reply_row stamp scenario_id k result ∷ []))

  -- The same after `mark_as_started`.
  started-finalize-state_of :
      (stamp : Stamp) (scenario_id : Option String) (k : String) (result : Result)
      (name role : Option String) (duration : Option ℕ) (tables : Tables) (row : Task)
      → IsKeyed tables.tasks
      → find k tables.tasks ≡ some row
      → state_of k
          (finalize_task dumps stamp scenario_id k result name role duration
            (record tables { tasks = (mark_as_started stamp.now k tables.tasks).0 })).tasks
        ≡ some (if succeeded result then TaskState.success else TaskState.failed)
  started-finalize-state_of stamp scenario_id k result name role duration tables row h e =
      finalize-state_of stamp scenario_id k result name role duration
        (record tables { tasks = (mark_as_started stamp.now k tables.tasks).0 })
        (started-IsKeyed stamp.now k tables.tasks h)
      ∙ rw
          (
            mark_as_started-at stamp.now k tables.tasks h,
            find-at (started stamp.now) k k tables.tasks (λ t. (refl, refl)),
            e,
          )
          (ground arith)

already_terminal-eq :
    (k : String) (rows : List Task) (row : Task)
    → IsKeyed rows
    → find k rows ≡ some row
    → already_terminal k rows ≡ is_terminal row.state
unfolding already_terminal
already_terminal-eq k rows row h e =
    ap (λ o. elim o as (λ _. Bool) [ none ↦ false | some t ↦ is_terminal t.state ])
      (find_by_task_id-find k rows h ∙ e)

-- The answer of the agent, as `run_task_locally` judges it.
abbrev pub judged : Answer → TaskState
judged (returned result) = if succeeded result then TaskState.success else TaskState.failed
judged (raised error) = TaskState.failed

-- A local run of a task that has a row leaves it in the state that the agent's answer decides and
-- writes one message; where the task is already over it changes no state and writes none.
pub run_task_locally-state_of :
    (dumps : Result → String) (agent_run : String → TaskMessage → Answer) (stamp : Stamp)
    (scenario_id : Option String) (msg : TaskMessage) (tables : Tables) (row : Task)
    → IsKeyed tables.tasks
    → find msg.task_id tables.tasks ≡ some row
    → let after = run_task_locally dumps agent_run stamp scenario_id msg tables in
      let over = is_terminal row.state in
      (state_of msg.task_id after.tasks
        ≡ some (if over then row.state else judged (agent_run msg.task_id msg)))
      × (length after.messages ≡ length tables.messages + (if over then 0 else 1))
unfolding run_task_locally
run_task_locally-state_of dumps agent_run stamp scenario_id msg tables row h e =
    let started : Tables = record tables {
      tasks = (mark_as_started stamp.now msg.task_id tables.tasks).0;
    } in
    ground (
      arith,
      e,
      already_terminal-eq msg.task_id tables.tasks row h e,
      settled (agent_run msg.task_id msg),
      length-settle (agent_run msg.task_id msg) started,
    )
  where
    settled :
        (answer : Answer)
        → state_of msg.task_id
            (settle dumps agent_run stamp scenario_id msg answer (record tables {
              tasks = (mark_as_started stamp.now msg.task_id tables.tasks).0;
            })).tasks
          ≡ some (judged answer)
    settled (returned result) =
        started-finalize-state_of dumps stamp scenario_id msg.task_id result _ _ _ tables row h e
    settled (raised error) =
        started-finalize-state_of dumps stamp scenario_id msg.task_id _ _ _ _ tables row h e

    length-settle :
        (answer : Answer) (now_in : Tables)
        → length (settle dumps agent_run stamp scenario_id msg answer now_in).messages
          ≡ length now_in.messages + 1
    length-settle (returned result) now_in =
        length-finalize dumps stamp scenario_id msg.task_id result _ _ _ now_in
    length-settle (raised error) now_in =
        length-finalize dumps stamp scenario_id msg.task_id _ _ _ _ now_in
