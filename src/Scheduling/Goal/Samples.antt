-- ===== src/Scheduling/Goal/Samples.antt =====
-- A goal that the rules split, and the theorem at it.
use agent_server_platform.Base.{
  ℕ, String, ◌≡◌, refl, Bool, true, none, some, List, [], ◌∷◌, string_eq, select, after_first,
  before_first,
}
use agent_server_platform.Database.Messages.{TaskMessage, ReplyMessage}
use agent_server_platform.Scheduling.Subtasks.{Subtask}
use agent_server_platform.Scheduling.Creation.{Fresh}
use agent_server_platform.Scheduling.Goal.{
  GoalContext, part_of, plan_of, parts_of, split, heuristic,
}

abbrev ctx : GoalContext
ctx = record {
  goal = "write it and  and run it";
  scenario_id = some "s";
  priority = none;
  timeout_seconds = none;
  role = none;
  system_prompt = none;
  configured_roles = [];
}

abbrev same : String → String
same s = s

abbrev same_order : List String → List String
same_order xs = xs

-- An empty piece between two separators is left out.
two_parts : heuristic same same ctx ≡ part_of ctx "write it" ∷ part_of ctx "run it" ∷ []
unfolding heuristic plan_of parts_of split select after_first before_first string_eq
two_parts = refl

abbrev fresh : Subtask → Fresh
fresh s = record { row_id = 1; task_id = "u"; now = 3 }

abbrev dumps_ids : List String → String
dumps_ids ids = "[]"

abbrev dumps_context : Subtask → String
dumps_context s = "{}"

abbrev in_time : ℕ → Bool
in_time n = true

abbrev silent : ℕ → List TaskMessage → List ReplyMessage
silent n msgs = []

abbrev cycle_text : List String → String
cycle_text ids = "cycle"
