-- ===== src/AgentManager/Outcomes.antt =====
-- What is left of a task when `_execute_task` is over.
use agent_server_platform.Base.{
  ℕ, String, ◌≡◌, refl, ap, ◌∙◌, Bool, true, false, not, ◌||◌, Option, none, some, List, [], ◌∷◌,
  map, arith, ◌==◌, string_eq, if◌then◌else◌, all, contains, Option-cases, inl, inr,
}
use agent_server_platform.Base.Dict.{lookup}
use agent_server_platform.StateMachine.{TaskState, TaskState-discrete, task_state_eq, is_terminal}
use agent_server_platform.Database.Tasks.{
  Task, failed_with, started, find_by_task_id, find_by_topic_id,
}
use agent_server_platform.Database.Tasks.Update.{
  IsKeyed, find, at, is_found, mark_as_started-at, mark_as_completed-at, mark_as_failed-at,
}
use agent_server_platform.Database.Tasks.Keys.{map-IsKeyed, at-KeepsKeys, find-at}
use agent_server_platform.Database.Messages.{Result}
use agent_server_platform.Agents.{AgentRun, start, fail}
use agent_server_platform.Dispatcher.{Answer, returned, raised, or_text, succeeded}
use agent_server_platform.Platform.{Platform, emit, task_started}
use agent_server_platform.AgentManager.{
  RunContext, run_context, set_run, report_topic, check_topic, check_topic_completion,
  record_failure, record_success, conclude, run_agent, after_start, execute_task,
}

-- No row of the key is in a state that can go on.
unfoldable pub is_over : String → List Task → Bool
is_over k rows = all (λ t. not (t.task_id == k) || is_terminal t.state) rows

is_over-map :
    (k : String) (f : Task → Task) (rows : List Task)
    → ((t : Task) → is_terminal (f t).state ≡ true)
    → is_over k (map (at k f) rows) ≡ true
unfolding is_over all
is_over-map k f [] h = refl
is_over-map k f (r ∷ rs) h = ground (arith, h r, is_over-map k f rs h)

is_over_absent : (k : String) (rows : List Task) → find k rows ≡ none → is_over k rows ≡ true
unfolding is_over all find
is_over_absent k [] e = refl
is_over_absent k (r ∷ rs) e = ground (arith, is_over_absent k rs)

report_topic-tasks :
    (topic_id : String) (ts : List Task) (p : Platform)
    → (report_topic topic_id ts p).tasks ≡ p.tasks
unfolding report_topic
report_topic-tasks topic_id [] p = refl
report_topic-tasks topic_id (t ∷ ts) p = ground arith

check_topic-tasks : (o : Option Task) (p : Platform) → (check_topic o p).tasks ≡ p.tasks
unfolding check_topic
check_topic-tasks none p = refl
check_topic-tasks (some t) p = topic t.topic_id
  where
    topic :
        (o : Option String)
        → (elim o as (λ _. Platform) [
          | none ↦ p
          | some topic_id ↦
              if topic_id == ""
              then p
              else report_topic topic_id (find_by_topic_id topic_id p.tasks) p
        ]).tasks
          ≡ p.tasks
    topic none = refl
    topic (some topic_id) =
        ground (arith, report_topic-tasks topic_id (find_by_topic_id topic_id p.tasks) p)

failed_is_terminal : is_terminal TaskState.failed ≡ true
unfolding is_terminal contains TaskState-discrete
failed_is_terminal = refl

success_is_terminal : is_terminal TaskState.success ≡ true
unfolding is_terminal contains TaskState-discrete
success_is_terminal = refl

set_run-tasks :
    (agent_run_id : String) (run : AgentRun) (p : Platform)
    → (set_run agent_run_id run p).tasks ≡ p.tasks
unfolding set_run
set_run-tasks agent_run_id run p = elim (Option-cases (lookup agent_run_id p.agent_runs)) [
  | inl e ↦ rw (e, set_run) refl
  | inr (r, e) ↦ rw (e, set_run) refl
]

module _ (dumps : Result → String)
    (agent_run : String → RunContext → Platform → Platform × Answer) where
  record_failure-over :
      (later : ℕ) (agent_run_id : String) (run : AgentRun) (error : String) (p : Platform)
      → IsKeyed p.tasks
      → is_over run.task_id (record_failure later agent_run_id run error p).tasks ≡ true
  unfolding record_failure
  record_failure-over later agent_run_id run error p h =
      ap (λ q. is_over run.task_id q.0) (mark_as_failed-at later run.task_id p.tasks h error)
      ∙ is_over-map run.task_id (failed_with later error) p.tasks (λ t. failed_is_terminal)

  record_success-over :
      (now later : ℕ) (agent_run_id : String) (run : AgentRun) (result : Result) (p : Platform)
      → IsKeyed p.tasks
      → is_over run.task_id
          (record_success dumps agent_run now later agent_run_id run result p).tasks
        ≡ true
  unfolding record_success
  record_success-over now later agent_run_id run result p h =
      ap (λ q. is_over run.task_id q.0) (mark_as_completed-at later run.task_id p.tasks h _)
      ∙ is_over-map run.task_id _ p.tasks (λ t. success_is_terminal)

  conclude-over :
      (now later : ℕ) (agent_run_id : String) (run : AgentRun) (answer : Answer) (p : Platform)
      → IsKeyed p.tasks
      → is_over run.task_id (conclude dumps agent_run now later agent_run_id run answer p).tasks
        ≡ true
  unfolding conclude check_topic_completion
  conclude-over now later agent_run_id run (returned result) p h =
      ap (is_over run.task_id) (check_topic-tasks _ _) ∙ settled (succeeded result)
    where
      settled :
          (b : Bool)
          → is_over run.task_id
              (if b
                then record_success dumps agent_run now later agent_run_id run result p
                else record_failure later agent_run_id run
                    (or_text result.error "Unknown error")
                    p).tasks
            ≡ true
      settled true = record_success-over now later agent_run_id run result p h
      settled false =
          record_failure-over later agent_run_id run (or_text result.error "Unknown error") p h
  conclude-over now later agent_run_id run (raised error) p h =
      record_failure-over later agent_run_id run error p h

  run_agent-over :
      (now later : ℕ) (agent_run_id : String) (run : AgentRun) (p : Platform)
      → IsKeyed p.tasks
      → ((c : RunContext) (q : Platform)
          → IsKeyed q.tasks
          → IsKeyed (agent_run run.task_id c q).0.tasks)
      → is_over run.task_id (run_agent dumps agent_run now later agent_run_id run p).tasks ≡ true
  unfolding run_agent
  run_agent-over now later agent_run_id run p h keeps =
      elim (Option-cases (find_by_task_id run.task_id p.tasks)) [
        | inl e ↦
            rw (e, run_agent)
              (conclude-over now later agent_run_id run
                (raised "'NoneType' object has no attribute 'goal'") p h)
        | inr (t, e) ↦
            let ran = agent_run run.task_id (run_context run t p) p in
            rw (e, run_agent)
              (conclude-over now later agent_run_id run ran.1 ran.0
                (keeps (run_context run t p) p h))
      ]

  -- Where the keys of the task table are unique and the agent's code keeps them so, no row of the task
  -- is left pending, running or waiting when its execution is over, whether the agent succeeds, fails
  -- or raises, and also where the task has no row.
  pub execute_task-over :
      (now later : ℕ) (agent_run_id : String) (run : AgentRun) (p : Platform)
      → IsKeyed p.tasks
      → ((c : RunContext) (q : Platform)
          → IsKeyed q.tasks
          → IsKeyed (agent_run run.task_id c q).0.tasks)
      → is_over run.task_id (execute_task dumps agent_run now later agent_run_id run p).tasks ≡ true
  unfolding execute_task start
  execute_task-over now later agent_run_id run p h keeps =
      let k = run.task_id in
      let q = set_run agent_run_id (start now run) p in
      ap
        (λ m.
          is_over k (after_start dumps agent_run now later agent_run_id (start now run) q m).tasks)
        (mark_as_started-at now k p.tasks h)
      ∙ go q (find k p.tasks) refl
    where
      go :
          (q : Platform) (o : Option Task)
          → find run.task_id p.tasks ≡ o
          → is_over run.task_id
              (after_start dumps agent_run now later agent_run_id
                (start now run)
                q
                (map (at run.task_id (started now)) p.tasks, is_found o)).tasks
            ≡ true
      go q none e =
          let rows = map (at run.task_id (started now)) p.tasks in
          ap (is_over run.task_id) (
            set_run-tasks agent_run_id (fail now "Failed to mark task as started" (start now run))
              (record q { tasks = rows }))
          ∙ is_over_absent run.task_id rows (
              find-at (started now) run.task_id run.task_id p.tasks (λ t. (refl, refl))
              ∙ ground (arith, e))
      go q (some t) e =
          let rows = map (at run.task_id (started now)) p.tasks in
          run_agent-over now later agent_run_id (start now run)
            (emit (task_started run.task_id) (record q { tasks = rows }))
            (map-IsKeyed (at run.task_id (started now)) p.tasks
              (at-KeepsKeys run.task_id (started now) (λ t. (refl, refl))) h)
            keeps
