-- ===== src/Scheduling/Creation.antt =====
-- `SchedulingAgent._create_subtask` and the loop of `run` that creates the rows of a plan;
-- `create_task` and `transition_task_state`; src/core/agents/scheduling_agent.py.
pub mod Idempotency
pub mod Rows
mod Samples
use agent_server_platform.Base.{
  ℕ, zero, suc, ◌+◌, String, ◌<>◌, Bool, true, false, Option, none, some, List, [], ◌∷◌, ◌++◌, ◌==◌,
  string_eq, if◌then◌else◌,
}
use agent_server_platform.Base.Dict.{Dict, lookup, insert}
use agent_server_platform.StateMachine.{TaskState, task_state_eq, can_transition, task_machine}
use agent_server_platform.Database.Tasks.{
  Timestamp, instant, Task, find_by_task_id, find_by_idempotency_key, update_task_state,
}
use agent_server_platform.Scheduling.Subtasks.{Subtask}

-- `d.get(key, default)`
abbrev pub or_else {ℓ} : {A : Type ℓ} → Option A → A → A
or_else none d = d
or_else (some a) d = a

-- What a new row takes from outside: the row's id, the `uuid4` and the clock.
pub record Fresh : Type 0 where
  pub row_id : ℕ
  pub task_id : String
  pub now : ℕ

-- The ids that the creation of a plan has resolved so far.
abbrev pub Resolved : Type 0
Resolved = Dict String String

-- `[local_id_to_task_id[d] for d in depends_on if d in local_id_to_task_id]`
unfoldable pub resolve_deps : Resolved → List String → List String
resolve_deps known [] = []
resolve_deps known (d ∷ ds) =
    let rest = resolve_deps known ds in
    elim (lookup d known) [ none ↦ rest | some task_id ↦ task_id ∷ rest ]

-- `f"{parent_task_id}:{goal}"`
abbrev pub key_of : String → Subtask → String
key_of parent_task_id subtask = parent_task_id <> (":" <> or_else subtask.goal "")

-- `json.dumps` of a list of ids, and of a subtask's context.
module _ (dumps_ids : List String → String) (dumps_context : Subtask → String) where
  -- `depends_on=json.dumps(resolved_deps) if resolved_deps else None`
  abbrev depends_on_column : List String → Option String
  depends_on_column [] = none
  depends_on_column (d ∷ ds) = some (dumps_ids (d ∷ ds))

  abbrev pub new_row : Fresh → String → Option String → Option String → Resolved → Subtask → Task
  new_row fresh parent_task_id topic_id scenario_id known subtask = record {
    id = fresh.row_id;
    task_id = fresh.task_id;
    agent_run_id = none;
    scenario_id = scenario_id;
    parent_task_id = some parent_task_id;
    topic_id = topic_id;
    idempotency_key = some (key_of parent_task_id subtask);
    depends_on = depends_on_column (resolve_deps known subtask.depends_on);
    goal = or_else subtask.goal "";
    state = TaskState.pending;
    priority = some (or_else subtask.priority 0);
    timeout_seconds = some (or_else subtask.timeout_seconds 3600);
    max_retries = some 3;
    retry_count = some 0;
    context = some (dumps_context subtask);
    result = none;
    error = none;
    agent_name = none;
    agent_role = none;
    execution_duration = none;
    created_at = fresh.now;
    updated_at = some (instant fresh.now);
    started_at = none;
    completed_at = none;
  }

  -- `if local_id_to_task_id is not None and subtask.get("id")`
  abbrev pub register : String → String → Resolved → Resolved
  register id task_id known = if id == "" then known else insert id task_id known

  -- `_create_subtask`: the id of the task, the rows and the resolved ids after it.
  unfoldable pub create_subtask :
      Fresh
      → String
      → Option String
      → Option String
      → Subtask
      → List Task
      → Resolved
      → String × List Task × Resolved
  create_subtask fresh parent_task_id topic_id scenario_id subtask rows known =
      elim (find_by_idempotency_key (key_of parent_task_id subtask) rows) [
        | some existing ↦ (existing.task_id, rows, register subtask.id existing.task_id known)
        | none ↦ (
          fresh.task_id,
          rows ++ new_row fresh parent_task_id topic_id scenario_id known subtask ∷ [],
          register subtask.id fresh.task_id known,
        )
      ]

  -- `run`: a row for each subtask, `local_id_to_task_id[lid] = subtask_id` after each.
  unfoldable pub create_subtasks :
      (Subtask → Fresh)
      → String
      → Option String
      → Option String
      → List Subtask
      → List Task
      → Resolved
      → List Task × Resolved
  create_subtasks fresh parent_task_id topic_id scenario_id [] rows known = (rows, known)
  create_subtasks fresh parent_task_id topic_id scenario_id (sub ∷ subs) rows known =
      let (task_id, now_rows, now_known) =
        create_subtask (fresh sub) parent_task_id topic_id scenario_id sub rows known in
      create_subtasks fresh parent_task_id topic_id scenario_id subs now_rows
        (if task_id == "" then now_known else insert sub.id task_id now_known)

-- The settings that `create_task` reads from a context, if one is given.
pub record Settings : Type 0 where
  pub priority : Option ℕ
  pub timeout_seconds : Option ℕ
  pub context : String

-- `create_task`: the new id and the rows after it; a context that is None or empty is `none`.
unfoldable pub create_task :
    Fresh → String → Option String → Option Settings → List Task → String × List Task
create_task fresh goal parent_task_id given rows =
    let row : Task = record {
      id = fresh.row_id;
      task_id = fresh.task_id;
      agent_run_id = none;
      scenario_id = none;
      parent_task_id = parent_task_id;
      topic_id = none;
      idempotency_key = none;
      depends_on = none;
      goal = goal;
      state = TaskState.pending;
      priority = some (elim given [ none ↦ 0 | some g ↦ or_else g.priority 0 ]);
      timeout_seconds = some (elim given [ none ↦ 3600 | some g ↦ or_else g.timeout_seconds 3600 ]);
      max_retries = some 3;
      retry_count = some 0;
      context = some (elim given [ none ↦ "{}" | some g ↦ g.context ]);
      result = none;
      error = none;
      agent_name = none;
      agent_role = none;
      execution_duration = none;
      created_at = fresh.now;
      updated_at = some (instant fresh.now);
      started_at = none;
      completed_at = none;
    } in
    (fresh.task_id, rows ++ row ∷ [])

-- `transition_task_state`: the state machine is initialised with the row's state, and the row is
-- written where the machine allows it.
unfoldable pub transition_task_state : ℕ → String → TaskState → List Task → List Task × Bool
transition_task_state now task_id new_state rows = elim (find_by_task_id task_id rows) [
  | none ↦ (rows, false)
  | some t ↦
      if can_transition (task_machine t.state) new_state
      then ((update_task_state now task_id new_state rows).0, true)
      else (rows, false)
]
