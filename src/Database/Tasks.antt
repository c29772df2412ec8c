-- ===== src/Database/Tasks.antt =====
-- src/database/models/task.py, and src/database/repositories/task_repository.py over the inherited
-- methods of base_repository.py. A column that every writer fills is plain, any other is optional.
-- The `state` column holds the value of a `TaskState`.
pub mod Update
pub mod Keys
pub mod Loops
mod Samples
use agent_server_platform.Base.{
  ℕ, zero, suc, ◌+◌, String, Bool, true, false, Option, none, some, List, [], ◌∷◌, map, ◌==◌,
  string_eq, nat_eq, if◌then◌else◌, ltb, head?,
}
use agent_server_platform.StateMachine.{TaskState, task_state_eq}
use agent_server_platform.Database.Query.{find_by_criteria, column_is}

-- A datetime column read back: a datetime, or the text that `from_dict` could not convert.
pub data Timestamp : Type 0 where
  instant : ℕ → Timestamp
  text : String → Timestamp

pub record Task : Type 0 where
  pub id : ℕ
  pub task_id : String
  pub agent_run_id : Option String
  pub scenario_id : Option String
  pub parent_task_id : Option String
  pub topic_id : Option String
  pub idempotency_key : Option String
  pub depends_on : Option String
  pub goal : String
  pub state : TaskState
  pub priority : Option ℕ
  pub timeout_seconds : Option ℕ
  pub max_retries : Option ℕ
  pub retry_count : Option ℕ
  pub context : Option String
  pub result : Option String
  pub error : Option String
  pub agent_name : Option String
  pub agent_role : Option String
  pub execution_duration : Option ℕ
  pub created_at : ℕ
  pub updated_at : Option Timestamp
  pub started_at : Option Timestamp
  pub completed_at : Option Timestamp

-- A column of an UPDATE: `to_dict` leaves a None out, so the stored value stays.
abbrev pub or_stored {ℓ} : {A : Type ℓ} → Option A → Option A → Option A
or_stored none old = old
or_stored (some new) old = some new

-- What `UPDATE tasks SET ... WHERE id = ?` with the columns of `entity.to_dict()` makes of a row.
unfoldable pub overlay : Task → Task → Task
overlay entity row = record {
  id = row.id;
  task_id = entity.task_id;
  agent_run_id = or_stored entity.agent_run_id row.agent_run_id;
  scenario_id = or_stored entity.scenario_id row.scenario_id;
  parent_task_id = or_stored entity.parent_task_id row.parent_task_id;
  topic_id = or_stored entity.topic_id row.topic_id;
  idempotency_key = or_stored entity.idempotency_key row.idempotency_key;
  depends_on = or_stored entity.depends_on row.depends_on;
  goal = entity.goal;
  state = entity.state;
  priority = or_stored entity.priority row.priority;
  timeout_seconds = or_stored entity.timeout_seconds row.timeout_seconds;
  max_retries = or_stored entity.max_retries row.max_retries;
  retry_count = or_stored entity.retry_count row.retry_count;
  context = or_stored entity.context row.context;
  result = or_stored entity.result row.result;
  error = or_stored entity.error row.error;
  agent_name = or_stored entity.agent_name row.agent_name;
  agent_role = or_stored entity.agent_role row.agent_role;
  execution_duration = or_stored entity.execution_duration row.execution_duration;
  created_at = entity.created_at;
  updated_at = or_stored entity.updated_at row.updated_at;
  started_at = or_stored entity.started_at row.started_at;
  completed_at = or_stored entity.completed_at row.completed_at;
}

abbrev set_row : Task → Task → Task
set_row entity row = if row.id == entity.id then overlay entity row else row

abbrev has_id : ℕ → List Task → Bool
has_id i [] = false
has_id i (r ∷ rs) = if r.id == i then true else has_id i rs

-- `BaseRepository.update`: a present `updated_at` is set to the current time, and the answer is
-- whether a row was changed.
unfoldable pub update : ℕ → Task → List Task → List Task × Bool
unfolding overlay
update now entity rows =
    let stamped = record entity {
      updated_at = elim entity.updated_at [ none ↦ none | some _ ↦ some (instant now) ];
    } in
    (map (set_row stamped) rows, has_id entity.id rows)

-- `__default_order__ = "created_at DESC"`
abbrev pub newer : Task → Task → Bool
newer s t = ltb t.created_at s.created_at

unfoldable pub find_by_task_id : String → List Task → Option Task
unfolding find_by_criteria
find_by_task_id task_id rows = head? (find_by_criteria (λ t. t.task_id == task_id) newer none rows)

-- `if not key: return None`
unfoldable pub find_by_idempotency_key : String → List Task → Option Task
unfolding find_by_criteria
find_by_idempotency_key key rows =
    if key == ""
    then none
    else head? (find_by_criteria (λ t. column_is key t.idempotency_key) newer none rows)

-- `if not topic_id: return []`
unfoldable pub find_by_topic_id : String → List Task → List Task
unfolding find_by_criteria
find_by_topic_id topic_id rows =
    if topic_id == ""
    then []
    else find_by_criteria (λ t. column_is topic_id t.topic_id) newer none rows

unfoldable pub find_by_state : TaskState → List Task → List Task
unfolding find_by_criteria
find_by_state state rows = find_by_criteria (λ t. t.state == state) newer none rows

unfoldable pub find_by_scenario_id : String → List Task → List Task
unfolding find_by_criteria
find_by_scenario_id scenario_id rows =
    find_by_criteria (λ t. column_is scenario_id t.scenario_id) newer none rows

unfoldable pub find_by_parent_task_id : String → List Task → List Task
unfolding find_by_criteria
find_by_parent_task_id parent_task_id rows =
    find_by_criteria (λ t. column_is parent_task_id t.parent_task_id) newer none rows

-- The shape of every writer below: find the row, set columns of the copy, write the copy back.
unfoldable pub modify : ℕ → String → (Task → Task) → List Task → List Task × Bool
unfolding find_by_task_id update
modify now task_id change rows = elim (find_by_task_id task_id rows) [
  | none ↦ (rows, false)
  | some task ↦ update now (change task) rows
]

abbrev pub set_state : ℕ → TaskState → Task → Task
set_state now new_state t = record t { state = new_state; updated_at = some (instant now) }

unfoldable pub update_task_state : ℕ → String → TaskState → List Task → List Task × Bool
unfolding modify
update_task_state now task_id new_state = modify now task_id (set_state now new_state)

-- `x or d` for a number column: a missing value and 0 are both replaced.
abbrev pub or_default : Option ℕ → ℕ → ℕ
or_default none d = d
or_default (some zero) d = d
or_default (some (suc n)) d = suc n

abbrev pub increment_retry : ℕ → Task → Task
increment_retry now t = record t {
  retry_count = some (or_default t.retry_count 0 + 1);
  updated_at = some (instant now);
}

unfoldable pub increment_retry_count : ℕ → String → List Task → List Task × Bool
unfolding modify
increment_retry_count now task_id = modify now task_id (increment_retry now)

abbrev pub started : ℕ → Task → Task
started now t = record t {
  state = TaskState.running;
  started_at = some (instant now);
  updated_at = some (instant now);
}

unfoldable pub mark_as_started : ℕ → String → List Task → List Task × Bool
unfolding modify
mark_as_started now task_id = modify now task_id (started now)

-- The optional arguments of `mark_as_completed`.
pub record Completion : Type 0 where
  pub result : Option String
  pub agent_name : Option String
  pub agent_role : Option String
  pub execution_duration : Option ℕ

-- A name, a role or a duration is only assigned where it is not None.
abbrev pub completed : ℕ → Completion → Task → Task
completed now c t = record t {
  state = TaskState.success;
  result = c.result;
  completed_at = some (instant now);
  updated_at = some (instant now);
  agent_name = or_stored c.agent_name t.agent_name;
  agent_role = or_stored c.agent_role t.agent_role;
  execution_duration = or_stored c.execution_duration t.execution_duration;
}

unfoldable pub mark_as_completed : ℕ → String → Completion → List Task → List Task × Bool
unfolding modify
mark_as_completed now task_id c = modify now task_id (completed now c)

abbrev pub failed_with : ℕ → String → Task → Task
failed_with now error t = record t {
  state = TaskState.failed;
  error = some error;
  completed_at = some (instant now);
  updated_at = some (instant now);
}

unfoldable pub mark_as_failed : ℕ → String → String → List Task → List Task × Bool
unfolding modify
mark_as_failed now task_id error = modify now task_id (failed_with now error)
