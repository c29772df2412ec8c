-- ===== src/Scheduling/Dispatch/Samples.antt =====
-- A wave of two subtasks, one of which depends on a failed task.
use agent_server_platform.Base.{
  String, ◌≡◌, refl, not, none, some, List, [], ◌∷◌, ◌++◌, map, string_eq,
}
use agent_server_platform.Scheduling.Subtasks.{Subtask}
use agent_server_platform.Scheduling.Creation.{Resolved}
use agent_server_platform.Scheduling.Dispatch.{AgentRole, associate_role, is_blocked, pick_wave}
use agent_server_platform.Scheduling.Dispatch.Blocked.{
  IsWave, with_task, second_of, failing, pick_wave-eq,
}

abbrev sub : String → List String → Subtask
sub id depends_on = record {
  id = id;
  depends_on = depends_on;
  goal = some "g";
  role = some "coder";
  system_prompt = none;
  priority = none;
  timeout_seconds = none;
}

abbrev known : Resolved
known = ("t1", "u1") ∷ ("t2", "u2") ∷ ("t3", "u3") ∷ []

abbrev wave : List Subtask
wave = sub "t2" ("t1" ∷ []) ∷ sub "t3" [] ∷ []

abbrev roles : List AgentRole
roles =
    record { name = some "tester"; role = some "You test."; server_id = none }
    ∷ record { name = some "coder"; role = some "You code."; server_id = some "s" }
    ∷ []

coder-associated :
    associate_role (sub "t1" []) roles
    ≡ record { role = "coder"; system_prompt = "You code."; server_id = some "s" }
unfolding associate_role string_eq
coder-associated = refl

wave-IsWave : IsWave known wave
wave-IsWave = ((λ task_id e. (tt, tt)), ((λ task_id e. tt), tt))

pick_wave-eq_example :
    ((pick_wave 9 known wave ("u1" ∷ []) []).0
      ≡ with_task known (λ sub. not (is_blocked known ("u1" ∷ []) sub)) wave)
    × ((pick_wave 9 known wave ("u1" ∷ []) []).1
        ≡ ("u1" ∷ []) ++ map second_of (with_task known (is_blocked known ("u1" ∷ [])) wave))
    × ((pick_wave 9 known wave ("u1" ∷ []) []).2
        ≡ failing 9 (map second_of (with_task known (is_blocked known ("u1" ∷ [])) wave)) [])
pick_wave-eq_example = pick_wave-eq 9 known wave ("u1" ∷ []) [] wave-IsWave
