-- ===== src/Scheduling/Goal.antt =====
-- `_decompose_goal` and the whole of `run` of src/core/agents/scheduling_agent.py. `lower` and `strip`
-- are `str.lower` and `str.strip`, `llm` is what the language model client answers, with none where it
-- is not configured or raises, and `cycle_text` is the message of the `ValueError`. The tables, the
-- messages and the events do not raise here, and no number of a context is None, so that the blanket
-- `except` of `run`, which answers with the error, is not reached.
pub mod Heuristic
mod Samples
use agent_server_platform.Base.{
  ℕ, String, ◌<>◌, Bool, true, false, not, ◌&&◌, Option, none, some, List, [], ◌∷◌, map, ◌==◌,
  string_eq, if◌then◌else◌, select, any, ltb, after_first, before_first, zero, suc,
}
use Prim.Native.String.{count}
use agent_server_platform.Base.Dict.{values}
use agent_server_platform.Database.Tasks.{Task}
use agent_server_platform.Database.Messages.{TaskMessage, ReplyMessage}
use agent_server_platform.Scheduling.Subtasks.{RawSubtask, Subtask, normalize_subtasks}
use agent_server_platform.Scheduling.Waves.{Outcome, waves, cycle, unfinished, build_waves}
use agent_server_platform.Scheduling.Creation.{Fresh, Resolved, or_else, create_subtasks}
use agent_server_platform.Scheduling.Dispatch.{AgentRole, Replies}
use agent_server_platform.Scheduling.Run.{Progress, run_waves}

-- The context of a goal, as far as `run` reads it; `role` and `system_prompt` are those of its
-- `execution_context`, and missing numbers are `none`: a key with the value None is not modelled.
pub record GoalContext : Type 0 where
  pub goal : String
  pub scenario_id : Option String
  pub priority : Option ℕ
  pub timeout_seconds : Option ℕ
  pub role : Option String
  pub system_prompt : Option String
  pub configured_roles : List AgentRole

-- `s.split(t)` into as many pieces as the fuel allows.
pieces : ℕ → String → String → List String
pieces zero t s = s ∷ []
pieces (suc fuel) t s = elim (after_first t s) [
  | none ↦ s ∷ []
  | some rest ↦ before_first t s ∷ pieces fuel t rest
]

-- `s.split(t)`: there are not more separators than characters.
unfoldable pub split : String → String → List String
unfolding pieces
split t s = pieces (count s) t s

abbrev pub part_of : GoalContext → String → RawSubtask
part_of ctx goal = record {
  id = none;
  depends_on = none;
  goal = some goal;
  role = ctx.role;
  system_prompt = ctx.system_prompt;
  priority = some (or_else ctx.priority 0);
  timeout_seconds = some (or_else ctx.timeout_seconds 3600);
}

-- The analysis step, whose own context has a command only.
abbrev pub analysis_of : GoalContext → RawSubtask
analysis_of ctx = record {
  id = none;
  depends_on = none;
  goal = some ("Analyze: " <> ctx.goal);
  role = none;
  system_prompt = none;
  priority = some (or_else ctx.priority 0);
  timeout_seconds =
      some
        (let timeout = or_else ctx.timeout_seconds 3600 in if ltb timeout 60 then timeout else 60);
}

-- The analysis and the execution of a goal that is not split.
abbrev pub default_plan : GoalContext → List RawSubtask
default_plan ctx = analysis_of ctx ∷ part_of ctx ("Execute: " <> ctx.goal) ∷ []

-- `if len(parts) > 1`
unfoldable pub plan_of : GoalContext → List String → List RawSubtask
plan_of ctx [] = default_plan ctx
plan_of ctx (p ∷ []) = default_plan ctx
plan_of ctx (p ∷ q ∷ ps) = map (part_of ctx) (p ∷ q ∷ ps)

module _ (lower strip : String → String) where
  -- `[p.strip() for p in goal.split(" and ") if p.strip()]`
  unfoldable pub parts_of : String → List String
  unfolding split
  parts_of goal = select (λ p. not (p == "")) (map strip (split " and " goal))

  unfoldable pub heuristic : GoalContext → List RawSubtask
  unfolding parts_of plan_of after_first
  heuristic ctx = elim (after_first " and " (lower ctx.goal)) [
    | none ↦ default_plan ctx
    | some _ ↦ plan_of ctx (parts_of ctx.goal)
  ]

  -- `_decompose_goal`: an empty answer of the model is no answer.
  unfoldable pub decompose : Option (List RawSubtask) → GoalContext → List RawSubtask
  unfolding heuristic
  decompose none ctx = heuristic ctx
  decompose (some []) ctx = heuristic ctx
  decompose (some (s ∷ ss)) ctx = s ∷ ss

-- What `run` answers with.
pub data RunAnswer : Type 0 where
  refused : String → RunAnswer
  scheduled : List String → Replies → RunAnswer

-- The tables and the outside of one run.
module _ (dumps_ids : List String → String) (dumps_context : Subtask → String)
    (fresh : Subtask → Fresh) (topic_id task_id : String) (now : ℕ) (in_time : ℕ → Bool)
    (collect : ℕ → List TaskMessage → List ReplyMessage) where
  -- `if scenario_id and created_by_id`: a created task has an id that is not empty.
  unfoldable pub dispatches : Option String → Resolved → Bool
  unfolding any values
  dispatches none known = false
  dispatches (some scenario_id) known =
      not (scenario_id == "") && any (λ id. not (id == "")) (values known)

  -- From the waves on: the rows are created and the waves run.
  unfoldable pub carry_out :
      GoalContext
      → List Subtask
      → List (List Subtask)
      → List Task
      → List Task × List TaskMessage × RunAnswer
  unfolding run_waves dispatches
  carry_out ctx subtasks plan rows =
      let (created, known) =
        create_subtasks dumps_ids dumps_context fresh task_id (some topic_id) ctx.scenario_id
          subtasks rows [] in
      let last =
        run_waves task_id ctx.configured_roles known now in_time collect 0 plan
          (record { rows = created; sent = []; failed_ids = []; all_replies = [] }) in
      if dispatches ctx.scenario_id known
      then (last.rows, last.sent, scheduled (values known) last.all_replies)
      else (created, [], scheduled (values known) [])

  module _ (iter : List String → List String) (cycle_text : List String → String) where
    -- What follows `_build_waves`.
    unfoldable pub after_waves :
        GoalContext
        → List Subtask
        → List Task
        → Outcome Subtask
        → List Task × List TaskMessage × RunAnswer
    unfolding carry_out
    after_waves ctx subtasks rows (waves plan) = carry_out ctx subtasks plan rows
    after_waves ctx subtasks rows (cycle ids) = (rows, [], refused (cycle_text ids))
    after_waves ctx subtasks rows unfinished = (rows, [], refused "")

    -- `run`: the rows after it, the messages that it sent and its answer.
    unfoldable pub run :
        (String → String)
        → (String → String)
        → Option (List RawSubtask)
        → GoalContext
        → List Task
        → List Task × List TaskMessage × RunAnswer
    unfolding after_waves
    run lower strip llm ctx rows =
        let subtasks = normalize_subtasks (decompose lower strip llm ctx) in
        let planned = after_waves ctx subtasks rows (build_waves iter subtasks) in
        if ctx.goal == "" then (rows, [], refused "No goal provided") else planned
