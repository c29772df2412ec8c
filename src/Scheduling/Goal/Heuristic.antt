-- ===== src/Scheduling/Goal/Heuristic.antt =====
-- A goal that the rules split goes out in one wave.
use agent_server_platform.Base.{◌≡◌, none, List, string_eq}
use agent_server_platform.Base.Dict.{Dict}
use agent_server_platform.Scheduling.Subtasks.{RawSubtask}

-- A subtask that asks for nothing before it.
abbrev IsAlone : RawSubtask → Type 0
IsAlone s = s.depends_on ≡ none
