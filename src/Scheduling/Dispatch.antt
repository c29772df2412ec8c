-- ===== src/Scheduling/Dispatch.antt =====
-- The waves of `SchedulingAgent.run`: roles, results of predecessors, failures and the messages that
-- go out; src/core/agents/scheduling_agent.py.
pub mod Blocked
mod Samples
use agent_server_platform.Base.{
  ℕ, zero, suc, ◌+◌, String, Bool, true, false, not, Option, none, some, List, [], ◌∷◌, ◌++◌, ◌==◌,
  string_eq, if◌then◌else◌, contains, any,
}
use agent_server_platform.Base.Dict.{Dict, lookup, insert}
use agent_server_platform.Database.Tasks.{Task, mark_as_failed}
use agent_server_platform.Database.Messages.{Result, Context, TaskMessage, ReplyMessage}
use agent_server_platform.Scheduling.Subtasks.{Subtask}
use agent_server_platform.Scheduling.Creation.{or_else, Resolved}

-- An execution agent of the scenario's configuration.
pub record AgentRole : Type 0 where
  pub name : Option String
  pub role : Option String
  pub server_id : Option String

-- The role's name, the system prompt and the server of a subtask.
pub record Association : Type 0 where
  pub role : String
  pub system_prompt : String
  pub server_id : Option String

-- `ag.get("name") == role` for the first that matches.
unfoldable pub find_role : String → List AgentRole → Option AgentRole
find_role role [] = none
find_role role (ag ∷ ags) =
    let rest = find_role role ags in
    elim ag.name [ none ↦ rest | some name ↦ if name == role then some ag else rest ]

abbrev of_role : String → AgentRole → Association
of_role role ag = record {
  role = or_else ag.name role;
  system_prompt = or_else ag.role "";
  server_id = ag.server_id;
}

-- `_associate_role`
unfoldable pub associate_role : Subtask → List AgentRole → Association
unfolding find_role
associate_role subtask [] = record {
  role = or_else subtask.role "";
  system_prompt = or_else subtask.system_prompt "";
  server_id = none;
}
associate_role subtask (first ∷ more) =
    let role = or_else subtask.role "" in
    elim (find_role role (first ∷ more)) [ some ag ↦ of_role role ag | none ↦ of_role role first ]

-- `replies_by_task_id`
abbrev pub Replies : Type 0
Replies = Dict String Result

-- The reply of the task that a local id stands for; an empty task id counts as none.
unfoldable pub reply_of_local : String → Resolved → Replies → Option Result
reply_of_local lid known replies = elim (lookup lid known) [
  | none ↦ none
  | some task_id ↦ if task_id == "" then none else lookup task_id replies
]

-- `_inject_upstream`: `upstream_results` and `upstream_outputs` in the order of the dependencies.
unfoldable pub inject_upstream :
    List String
    → Resolved
    → Replies
    → Dict String Result × List String
    → Dict String Result × List String
unfolding reply_of_local
inject_upstream [] known replies (upstream, outputs) = (upstream, outputs)
inject_upstream (lid ∷ lids) known replies (upstream, outputs) =
    inject_upstream lids known replies (elim (reply_of_local lid known replies) [
      | none ↦ (upstream, outputs)
      | some res ↦ (insert lid res upstream, outputs ++ or_else res.output "" ∷ [])
    ])

-- `local_id_to_task_id.get(d) in failed_ids`
abbrev pub is_failed : Resolved → List String → String → Bool
is_failed known failed_ids d = elim (lookup d known) [
  | none ↦ false
  | some task_id ↦ contains failed_ids task_id
]

-- `any(... for d in deps)`
unfoldable pub is_blocked : Resolved → List String → Subtask → Bool
unfolding any
is_blocked known failed_ids sub = any (is_failed known failed_ids) sub.depends_on

abbrev pub skip_error : String
skip_error = "Skipped: predecessor task failed"

-- The task id of a subtask, if it has one that is not empty.
abbrev pub task_id_of : Resolved → Subtask → Option String
task_id_of known sub = elim (lookup sub.id known) [
  | none ↦ none
  | some task_id ↦ if task_id == "" then none else some task_id
]

-- The tasks that one pass over the waves skips, and the rows after it.
unfoldable pub propagate_wave :
    ℕ → Resolved → List String → List Subtask → List String → List Task → List String × List Task
unfolding is_blocked
propagate_wave now known failed_ids [] skipped rows = (skipped, rows)
propagate_wave now known failed_ids (sub ∷ subs) skipped rows =
    let next =
      if is_blocked known (failed_ids ++ skipped) sub then task_id_of known sub else none in
    elim next [
      | none ↦ propagate_wave now known failed_ids subs skipped rows
      | some task_id ↦
          propagate_wave now known failed_ids subs (skipped ++ task_id ∷ [])
            (mark_as_failed now task_id skip_error rows).0
    ]

-- `_propagate_failure` over the waves from `start_wave` on.
unfoldable pub propagate_failure :
    ℕ
    → Resolved
    → List String
    → List (List Subtask)
    → List String
    → List Task
    → List String × List Task
unfolding propagate_wave
propagate_failure now known failed_ids [] skipped rows = (skipped, rows)
propagate_failure now known failed_ids (wave ∷ waves) skipped rows =
    let (more, marked) = propagate_wave now known failed_ids wave skipped rows in
    propagate_failure now known failed_ids waves more marked

module _ (now : ℕ) (known : Resolved) where
  -- The `for sub in wave` loop: the subtasks that go out, the failed ids and the rows after it.
  unfoldable pub pick_wave :
      List Subtask → List String → List Task → List (Subtask × String) × List String × List Task
  pick_wave [] failed_ids rows = ([], failed_ids, rows)
  pick_wave (sub ∷ subs) failed_ids rows = elim (task_id_of known sub) [
    | none ↦ pick_wave subs failed_ids rows
    | some task_id ↦
        let skipped =
          pick_wave subs (failed_ids ++ task_id ∷ [])
            (mark_as_failed now task_id skip_error rows).0 in
        let (picked, failed, marked) = pick_wave subs failed_ids rows in
        if is_blocked known failed_ids sub
        then skipped
        else ((sub, task_id) ∷ picked, failed, marked)
  ]
