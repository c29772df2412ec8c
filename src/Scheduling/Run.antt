-- ===== src/Scheduling/Run.antt =====
-- The loop over the waves in `SchedulingAgent.run`, src/core/agents/scheduling_agent.py, with the clock
-- and the collected replies of each wave as parameters.
pub mod Failures
mod Samples
use agent_server_platform.Base.{
  ℕ, zero, suc, ◌+◌, String, Bool, true, false, not, Option, none, some, List, [], ◌∷◌, ◌++◌, map,
  if◌then◌else◌, ◌==◌, string_eq,
}
use agent_server_platform.Base.Dict.{Dict, insert}
use agent_server_platform.Database.Tasks.{Task}
use agent_server_platform.Database.Messages.{Result, Context, TaskMessage, ReplyMessage}
use agent_server_platform.Scheduling.Subtasks.{Subtask}
use agent_server_platform.Scheduling.Creation.{or_else, Resolved}
use agent_server_platform.Scheduling.Dispatch.{
  AgentRole, Association, associate_role, Replies, inject_upstream, propagate_failure, pick_wave,
}

-- What the loop carries: the task rows, the messages that went out, `failed_ids` and `all_replies`.
pub record Progress : Type 0 where
  pub rows : List Task
  pub sent : List TaskMessage
  pub failed_ids : List String
  pub all_replies : Replies

-- The upstream keys, which a subtask without dependencies does not get.
unfoldable pub upstream_of :
    List String → Resolved → Replies → Option (Dict String Result × List String)
unfolding inject_upstream
upstream_of [] known replies = none
upstream_of (d ∷ ds) known replies = some (inject_upstream (d ∷ ds) known replies ([], []))

-- `if server_id: ctx["server_id"] = server_id`
abbrev truthy : Option String → Option String
truthy none = none
truthy (some s) = if s == "" then none else some s

module _ (parent_task_id : String) (configured_roles : List AgentRole) (known : Resolved) where
  -- The message of a subtask; its context has a role and a system prompt to begin with.
  unfoldable pub message_of : Replies → Subtask × String → TaskMessage
  unfolding associate_role upstream_of
  message_of replies (sub, task_id) =
      let found = associate_role sub configured_roles in
      let upstream = upstream_of sub.depends_on known replies in
      record {
        task_id = task_id;
        parent_task_id = parent_task_id;
        goal = or_else sub.goal "";
        context = record {
          role = some found.role;
          system_prompt = some found.system_prompt;
          server_id = truthy found.server_id;
          question = none;
          upstream_results = elim upstream [ none ↦ none | some u ↦ some u.0 ];
          upstream_outputs = elim upstream [ none ↦ none | some u ↦ some u.1 ];
        };
      }

  -- `for r in replies`: every result is kept, and a task that did not succeed has failed.
  unfoldable pub absorb : List ReplyMessage → List String → Replies → List String × Replies
  absorb [] failed_ids all_replies = (failed_ids, all_replies)
  absorb (r ∷ rs) failed_ids all_replies =
      absorb rs (if r.success then failed_ids else failed_ids ++ r.task_id ∷ [])
        (insert r.task_id r.result all_replies)

  -- `in_time` tells whether the deadline lies ahead when a wave begins, `collect` what
  -- `collect_replies` returns for the messages of a wave.
  module _ (now : ℕ) (in_time : ℕ → Bool) (collect : ℕ → List TaskMessage → List ReplyMessage) where
    -- A wave whose messages went out.
    unfoldable pub after_wave :
        ℕ → List (List Subtask) → List (Subtask × String) → Progress → Progress
    unfolding message_of
    after_wave wave_idx later picked s =
        let msgs = map (message_of s.all_replies) picked in
        let (failed, replies) = absorb (collect wave_idx msgs) s.failed_ids s.all_replies in
        record {
          rows = elim failed [
            | [] ↦ s.rows
            | id ∷ ids ↦ (propagate_failure now known (id ∷ ids) later [] s.rows).1
          ];
          sent = s.sent ++ msgs;
          failed_ids = failed;
          all_replies = replies;
        }

    -- `for wave_idx, wave in enumerate(waves)`
    unfoldable pub run_waves : ℕ → List (List Subtask) → Progress → Progress
    unfolding after_wave
    run_waves wave_idx [] s = s
    run_waves wave_idx (wave ∷ later) s =
        let (picked, failed, rows) = pick_wave now known wave s.failed_ids s.rows in
        let skipping = record s { failed_ids = failed; rows = rows } in
        let idle = run_waves (wave_idx + 1) later skipping in
        let busy = run_waves (wave_idx + 1) later (after_wave wave_idx later picked skipping) in
        if in_time wave_idx then elim picked [ [] ↦ idle | _ ∷ _ ↦ busy ] else s
