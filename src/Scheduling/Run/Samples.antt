-- ===== src/Scheduling/Run/Samples.antt =====
-- Two waves; the task of the first fails.
use agent_server_platform.Base.{
  ℕ, String, ◌≡◌, refl, true, false, none, some, List, [], ◌∷◌, string_eq, contains,
}
use agent_server_platform.Database.Messages.{TaskMessage, ReplyMessage}
use agent_server_platform.Scheduling.Subtasks.{Subtask}
use agent_server_platform.Scheduling.Creation.{Resolved}
use agent_server_platform.Base.Dict.{lookup}
use agent_server_platform.Scheduling.Dispatch.{is_blocked, pick_wave}
use agent_server_platform.Scheduling.Run.{Progress, absorb, run_waves}

abbrev sub : String → List String → Subtask
sub id depends_on = record {
  id = id;
  depends_on = depends_on;
  goal = some "g";
  role = none;
  system_prompt = none;
  priority = none;
  timeout_seconds = none;
}

abbrev known : Resolved
known = ("t1", "u1") ∷ ("t2", "u2") ∷ []

abbrev plan : List (List Subtask)
plan = (sub "t1" [] ∷ []) ∷ (sub "t2" ("t1" ∷ []) ∷ []) ∷ []

abbrev begun : Progress
begun = record { rows = []; sent = []; failed_ids = "u0" ∷ []; all_replies = [] }

abbrev replies : ℕ → List TaskMessage → List ReplyMessage
replies _ _ =
    record {
      task_id = "u1";
      success = false;
      result = record { success = some false; output = none; error = none; role = none };
    }
    ∷ []

dependent-failed :
    (run_waves "p" [] known 9 (λ _. true) replies 0 plan begun).failed_ids ≡ "u0" ∷ "u1" ∷ "u2" ∷ []
unfolding run_waves pick_wave lookup string_eq is_blocked contains absorb
dependent-failed = refl
