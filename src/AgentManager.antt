-- ===== src/AgentManager.antt =====
-- src/agents/agent_manager.py: submission of a task, its execution, and the registry of runs. Each
-- agent's own code is a parameter, with all that happens while it runs; clock readings, database ids
-- and uuids are arguments, and the clock does not go back.
pub mod Outcomes
mod Samples
use agent_server_platform.Base.{
  ℕ, ◌+◌, ◌-◌, String, Bool, true, false, Option, none, some, List, [], ◌∷◌, ◌++◌, ◌==◌, string_eq,
  if◌then◌else◌, select, all, length, take,
}
use agent_server_platform.Base.Dict.{Dict, lookup, insert, erase, values}
use agent_server_platform.StateMachine.{TaskState, task_state_eq, is_terminal}
use agent_server_platform.Database.Tasks.{
  Task, instant, find_by_task_id, find_by_topic_id, mark_as_started, mark_as_completed,
  mark_as_failed,
}
use agent_server_platform.Database.Messages.{Result}
use agent_server_platform.Database.Scenarios.{
  value, malformed, AgentRoles, Config, Scenario, find_by_scenario_id,
}
use agent_server_platform.Agents.{AgentRun, new_run, start, complete, fail}
use agent_server_platform.Dispatcher.{Answer, returned, raised, or_text, succeeded}
use agent_server_platform.Platform.{
  Platform, emit, task_submitted, task_started, task_completed, task_failed, topic_completed,
}

-- `agent_registry`: the built-in classes by their type.
abbrev pub agent_registry : Dict String String
agent_registry = ("scheduling", "SchedulingAgent") ∷ ("execution", "ExecutionAgent") ∷ []

-- The arguments of `submit_task`.
pub record Submission : Type 0 where
  pub goal : String
  pub agent_type : String
  pub scenario_id : Option String
  pub priority : ℕ
  pub timeout_seconds : ℕ
  pub context : Config

pub record Ids : Type 0 where
  pub row_id : ℕ
  pub task_id : String
  pub agent_run_id : String

-- `json.dumps` of a context.
module _ (dumps_context : Config → String) (now : ℕ) (ids : Ids) (submission : Submission) where
  abbrev pub submitted_row : Task
  submitted_row = record {
    id = ids.row_id;
    task_id = ids.task_id;
    agent_run_id = some ids.agent_run_id;
    scenario_id = submission.scenario_id;
    parent_task_id = none;
    topic_id = none;
    idempotency_key = none;
    depends_on = none;
    goal = submission.goal;
    state = TaskState.pending;
    priority = some submission.priority;
    timeout_seconds = some submission.timeout_seconds;
    max_retries = some 3;
    retry_count = some 0;
    context = some (dumps_context submission.context);
    result = none;
    error = none;
    agent_name = none;
    agent_role = none;
    execution_duration = none;
    created_at = now;
    updated_at = some (instant now);
    started_at = none;
    completed_at = none;
  }

  -- The row is written before the type is looked up. A run that is registered comes with the answer:
  -- it is handed to a work loop.
  unfoldable pub submit_task : Platform → Platform × Option AgentRun
  unfolding lookup insert
  submit_task p =
      let stored = record p { tasks = p.tasks ++ submitted_row ∷ [] } in
      elim (lookup submission.agent_type agent_registry) [
        | none ↦ (stored, none)
        | some agent_class ↦
            let run = new_run agent_class submission.agent_type ids.task_id submission.context in
            (
              emit (task_submitted ids.task_id submission.goal submission.agent_type)
                  (record stored { agent_runs = insert ids.agent_run_id run p.agent_runs }),
              some run,
            )
      ]

-- A change of a run, seen in the registry where it still has the run.
unfoldable pub set_run : String → AgentRun → Platform → Platform
unfolding lookup insert
set_run agent_run_id run p = elim (lookup agent_run_id p.agent_runs) [
  | none ↦ p
  | some _ ↦ record p { agent_runs = insert agent_run_id run p.agent_runs }
]

-- What the agent is given: the run's configuration with these keys set.
pub record RunContext : Type 0 where
  pub goal : String
  pub task_id : String
  pub scenario_id : Option String
  pub agent_roles : Option AgentRoles

-- The roles of the scenario's configuration, where it can be read; an error is logged only.
unfoldable pub scenario_roles : Option String → List Scenario → Option AgentRoles
scenario_roles none rows = none
scenario_roles (some scenario_id) rows =
    let found = find_by_scenario_id scenario_id rows in
    if scenario_id == "" then none else elim found [
      | none ↦ none
      | some s ↦ elim s.config [
        | none ↦ none
        | some c ↦ elim c [ value config ↦ config.agent_roles | malformed ↦ none ]
      ]
    ]

unfoldable pub run_context : AgentRun → Task → Platform → RunContext
unfolding scenario_roles
run_context run task p = record {
  goal = task.goal;
  task_id = run.task_id;
  scenario_id = task.scenario_id;
  agent_roles = elim run.config.agent_roles [
    | none ↦ scenario_roles task.scenario_id p.scenarios
    | some roles ↦ some roles
  ];
}

abbrev pub success_count : List Task → ℕ
success_count siblings = length (select (λ t. t.state == TaskState.success) siblings)

-- The report on a topic, where all its tasks have ended.
unfoldable pub report_topic : String → List Task → Platform → Platform
report_topic topic_id [] p = p
report_topic topic_id (t ∷ ts) p =
    let siblings = t ∷ ts in
    if all (λ s. is_terminal s.state) siblings
    then emit
        (topic_completed topic_id (length siblings) (success_count siblings)
          (length siblings - success_count siblings))
        p
    else p

-- `if not task or not task.topic_id: return`, and the query of the siblings.
unfoldable pub check_topic : Option Task → Platform → Platform
unfolding report_topic
check_topic none p = p
check_topic (some task) p = elim task.topic_id [
  | none ↦ p
  | some topic_id ↦
      let reported = report_topic topic_id (find_by_topic_id topic_id p.tasks) p in
      if topic_id == "" then p else reported
]

-- `_check_topic_completion`
unfoldable pub check_topic_completion : String → Platform → Platform
unfolding check_topic
check_topic_completion task_id p = check_topic (find_by_task_id task_id p.tasks) p

-- A run that failed: in the registry, in its row and as an event.
unfoldable pub record_failure : ℕ → String → AgentRun → String → Platform → Platform
unfolding set_run
record_failure later agent_run_id run error p =
    emit (task_failed run.task_id error) (record (set_run agent_run_id (fail later error run) p) {
      tasks = (mark_as_failed later run.task_id error p.tasks).0;
    })

-- `json.dumps` of a result, and the agent.
module _ (dumps : Result → String)
    (agent_run : String → RunContext → Platform → Platform × Answer) where
  -- A run that succeeded; it was started at `now`.
  unfoldable pub record_success : ℕ → ℕ → String → AgentRun → Result → Platform → Platform
  unfolding set_run
  record_success now later agent_run_id run result p =
      emit (task_completed run.task_id)
        (record (set_run agent_run_id (complete later result run) p) {
          tasks =
              (mark_as_completed later run.task_id
                (record {
                  result = some (dumps result);
                  agent_name = some run.agent_class;
                  agent_role = some run.agent_type;
                  execution_duration = some (later - now);
                })
                p.tasks).0;
        })

  -- What follows `agent.run`, at a later time. The topic is not looked at after an error.
  unfoldable pub conclude : ℕ → ℕ → String → AgentRun → Answer → Platform → Platform
  unfolding record_success record_failure check_topic_completion
  conclude now later agent_run_id run (returned result) p = check_topic_completion run.task_id (
      if succeeded result
      then record_success now later agent_run_id run result p
      else record_failure later agent_run_id run (or_text result.error "Unknown error") p)
  conclude now later agent_run_id run (raised error) p =
      record_failure later agent_run_id run error p

  -- From the running row on. A row that is gone again is an error like the agent's.
  unfoldable pub run_agent : ℕ → ℕ → String → AgentRun → Platform → Platform
  unfolding conclude run_context
  run_agent now later agent_run_id run p = elim (find_by_task_id run.task_id p.tasks) [
    | none ↦
        conclude now later agent_run_id run (raised "'NoneType' object has no attribute 'goal'") p
    | some task ↦
        let (after, answer) = agent_run run.task_id (run_context run task p) p in
        conclude now later agent_run_id run answer after
  ]

  -- What follows `mark_as_started`, with its answer and the table that it leaves.
  unfoldable pub after_start : ℕ → ℕ → String → AgentRun → Platform → List Task × Bool → Platform
  unfolding run_agent
  after_start now later agent_run_id run p (rows, true) =
      run_agent now later agent_run_id run
        (emit (task_started run.task_id) (record p { tasks = rows }))
  after_start now later agent_run_id run p (rows, false) =
      set_run agent_run_id (fail now "Failed to mark task as started" run)
        (record p { tasks = rows })

  -- `_execute_task`
  unfoldable pub execute_task : ℕ → ℕ → String → AgentRun → Platform → Platform
  unfolding after_start
  execute_task now later agent_run_id run p =
      after_start now later agent_run_id (start now run) (set_run agent_run_id (start now run) p)
        (mark_as_started now run.task_id p.tasks)

unfoldable pub get_agent_run_status : String → Platform → Option AgentRun
unfolding lookup
get_agent_run_status agent_run_id p = lookup agent_run_id p.agent_runs

unfoldable pub cleanup_agent_run : String → Platform → Platform × Bool
unfolding lookup erase
cleanup_agent_run agent_run_id p = elim (lookup agent_run_id p.agent_runs) [
  | none ↦ (p, false)
  | some _ ↦ (record p { agent_runs = erase agent_run_id p.agent_runs }, true)
]

unfoldable pub list_agent_runs : ℕ → Platform → List AgentRun
unfolding values
list_agent_runs limit p = take limit (values p.agent_runs)

-- `shutdown`: every agent is told to clean up, and the registry is emptied.
unfoldable pub shutdown : Platform → Platform
unfolding values
shutdown p = record p { agent_runs = []; cleaned = p.cleaned ++ values p.agent_runs }
