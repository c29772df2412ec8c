-- ===== src/StateMachine/Diagram.antt =====
-- The life cycles as relations, and that the tables of src/core/state_machine.py hold just those.
use agent_server_platform.Base.{◌≡◌, refl, ◌↔◌, true, false}
use agent_server_platform.StateMachine.{
  TaskState, TaskState-discrete, task_state_eq, scenario_state_eq, initialize, can_transition,
  task_state_machine, is_terminal, task_machine,
}

infix 40 ◌⟶◌
pub data ◌⟶◌ : TaskState → TaskState → Type 0 where
  start : TaskState.pending ⟶ TaskState.running
  succeed : TaskState.running ⟶ TaskState.success
  fail : TaskState.running ⟶ TaskState.failed
  expire : TaskState.running ⟶ TaskState.timeout
  wait : TaskState.running ⟶ TaskState.waiting
  resume : TaskState.waiting ⟶ TaskState.running
  cancel_pending : TaskState.pending ⟶ TaskState.cancelled
  cancel_running : TaskState.running ⟶ TaskState.cancelled
  cancel_waiting : TaskState.waiting ⟶ TaskState.cancelled

ruleset edges =
    (start, succeed, fail, expire, wait, resume, cancel_pending, cancel_running, cancel_waiting)

to_edge : (s t : TaskState) → can_transition (task_machine s) t ≡ true → s ⟶ t
unfolding can_transition task_state_machine initialize TaskState-discrete
to_edge TaskState.pending TaskState.running h = start
to_edge TaskState.pending TaskState.cancelled h = cancel_pending
to_edge TaskState.running TaskState.success h = succeed
to_edge TaskState.running TaskState.failed h = fail
to_edge TaskState.running TaskState.timeout h = expire
to_edge TaskState.running TaskState.waiting h = wait
to_edge TaskState.running TaskState.cancelled h = cancel_running
to_edge TaskState.waiting TaskState.running h = resume
to_edge TaskState.waiting TaskState.cancelled h = cancel_waiting
to_edge _ _ h = cc

of_edge : {s t : TaskState} → s ⟶ t → can_transition (task_machine s) t ≡ true
unfolding can_transition task_state_machine initialize TaskState-discrete
of_edge start = refl
of_edge _ = refl

-- The task machine, set to `s`, allows `t` exactly when the life cycle has an edge from `s` to `t`.
pub can_transition-⟶ : (s t : TaskState) → (can_transition (task_machine s) t ≡ true) ↔ (s ⟶ t)
can_transition-⟶ s t = (to_edge s t, of_edge)

-- The states of `_TERMINAL_TASK_STATES` are exactly those that the task machine cannot leave.
pub is_terminal_iff :
    (s : TaskState)
    → (is_terminal s ≡ true) ↔ ((t : TaskState) → can_transition (task_machine s) t ≡ false)
unfolding can_transition task_state_machine initialize TaskState-discrete is_terminal
is_terminal_iff TaskState.pending = (λ h. cc, λ f. cc (f TaskState.running))
is_terminal_iff TaskState.running = (λ h. cc, λ f. cc (f TaskState.success))
is_terminal_iff TaskState.waiting = (λ h. cc, λ f. cc (f TaskState.running))
is_terminal_iff _ = (λ h t. refl, λ f. refl)
