-- ===== src/LlmClient/Samples.antt =====
-- An answer with a fence, and tasks with an id that is asked for twice.
use agent_server_platform.Base.{
  String, ◌≡◌, refl, Option, none, some, List, [], ◌∷◌, map, string_eq, nat_eq, contains, select,
  after_first, before_first,
}
use agent_server_platform.Scheduling.Subtasks.{
  listed, RawSubtask, auto_id, proposed_id, decimal_text,
}
use agent_server_platform.LlmClient.{
  LlmTask, Defaults, json_text, first_id, collect_ids, second_id, validate_from, validate_tasks,
}
use agent_server_platform.LlmClient.Ids.{proposed_ids, validate_tasks-ids}

fence_found : json_text "Here:\n```json\n{}\n```\nDone." ≡ "\n{}\n"
unfolding json_text after_first before_first
fence_found = refl

plain_fence : json_text "```{}``` or ```[]```" ≡ "{}"
unfolding json_text after_first before_first
plain_fence = refl

abbrev task : Option String → List String → LlmTask
task id deps = record {
  goal = some (some "g");
  id = id;
  depends_on = some (listed deps);
  role = none;
  system_prompt = none;
  priority = none;
  timeout_seconds = none;
}

abbrev defaults : Defaults
defaults = record { priority = some 0; timeout_seconds = some 3600 }

-- The second task keeps the repeated id, and the third depends on an id that no task has.
abbrev tasks : List LlmTask
tasks = task (some "a") [] ∷ task (some "a") [] ∷ task none ("t2" ∷ []) ∷ []

abbrev validated : Option String → List String → RawSubtask
validated id deps = record {
  id = id;
  depends_on = some (listed deps);
  goal = some "g";
  role = none;
  system_prompt = none;
  priority = some 0;
  timeout_seconds = some 3600;
}

repeated_kept :
    validate_tasks defaults tasks
    ≡ validated (some "a") [] ∷ validated (some "a") [] ∷ validated (some "t3") ("t2" ∷ []) ∷ []
unfolding validate_tasks collect_ids validate_from first_id second_id proposed_id auto_id
    decimal_text contains select string_eq
repeated_kept = refl

validate_tasks-ids_example :
    map (λ s. s.id) (validate_tasks defaults tasks) ≡ map some (proposed_ids 0 tasks)
validate_tasks-ids_example = validate_tasks-ids defaults tasks
