-- ===== src/Scheduling/Creation/Samples.antt =====
-- A subtask created twice, and a transition of its row.
use agent_server_platform.Base.{
  String, ◌≡◌, refl, none, some, List, [], ◌∷◌, option_map, string_eq, if◌then◌else◌,
}
use agent_server_platform.StateMachine.{TaskState, task_state_eq, can_transition, task_machine}
use agent_server_platform.Database.Tasks.{Task}
use agent_server_platform.Database.Tasks.Update.{find}
use agent_server_platform.Scheduling.Subtasks.{Subtask}
use agent_server_platform.Scheduling.Creation.{
  Fresh, new_row, create_subtask, transition_task_state,
}
use agent_server_platform.Scheduling.Creation.Idempotency.{
  create_subtask_again, transition_task_state-state,
}

abbrev sub : Subtask
sub = record {
  id = "t1";
  depends_on = [];
  goal = some "build";
  role = none;
  system_prompt = none;
  priority = some 2;
  timeout_seconds = none;
}

abbrev fresh : Fresh
fresh = record { row_id = 1; task_id = "u1"; now = 10 }

abbrev later : Fresh
later = record { row_id = 2; task_id = "u2"; now = 20 }

abbrev dumps_ids : List String → String
dumps_ids _ = "[]"

abbrev dumps_context : Subtask → String
dumps_context _ = "{}"

abbrev row : Task
row = new_row dumps_ids dumps_context fresh "p" none (some "sc") [] sub

create_subtask_again_example :
    let first = create_subtask dumps_ids dumps_context fresh "p" none (some "sc") sub [] [] in
    let second = create_subtask dumps_ids dumps_context later "p" none none sub first.1 [] in
    (second.0 ≡ first.0) × (second.1 ≡ first.1)
create_subtask_again_example =
    create_subtask_again dumps_ids dumps_context fresh later "p" none (some "sc") none none sub sub
      [] [] [] refl

transition_task_state-state_example :
    let after = transition_task_state 30 "u1" TaskState.running (row ∷ []) in
    let allowed = can_transition (task_machine TaskState.pending) TaskState.running in
    (option_map (λ t. t.state) (find "u1" after.0)
      ≡ some (if allowed then TaskState.running else TaskState.pending))
    × (after.1 ≡ allowed)
unfolding find string_eq
transition_task_state-state_example =
    transition_task_state-state 30 "u1" TaskState.running (row ∷ []) row (tt, tt) refl
