-- ===== src/StateMachine/Attempts.antt =====
-- Runs of `StateMachine.transition`: what a client that attempts one state after another reaches.
use agent_server_platform.Base.{
  ◌≡◌, refl, ◌≢◌, Bool, true, false, List, [], ◌∷◌, Bool-cases, ◌⊎◌, inl, inr, Eq, All, ap, sym,
  ◌∙◌,
}
use agent_server_platform.StateMachine.{
  TaskState, ScenarioState, StateMachine, ScenarioState-discrete, task_state_eq, scenario_state_eq,
  initialize, can_transition, transition, scenario_state_machine, is_terminal, task_machine,
  scenario_machine,
}
use agent_server_platform.StateMachine.Diagram.{◌⟶◌, start, can_transition-⟶, is_terminal_iff}
use mathlib.Core.Option.{some-injective}

-- The machine after a list of attempts, and what each of them returned.
unfoldable pub attempts :
    {S : Type 0} ⦃e : Eq S⦄ → StateMachine S → List S → StateMachine S × List Bool
attempts sm [] = (sm, [])
attempts sm (t ∷ ts) =
    let (next, accepted) = transition sm t in
    let (last, answers) = attempts next ts in (last, accepted ∷ answers)

infix 40 ◌⟶*◌
pub data ◌⟶*◌ : TaskState → TaskState → Type 0 where
  here : {s : TaskState} → s ⟶* s
  then : {s t u : TaskState} → s ⟶ t → t ⟶* u → s ⟶* u

transition_lem :
    (s t : TaskState)
    → (transition (task_machine s) t ≡ (task_machine t, true)) × (s ⟶ t)
      ⊎ (transition (task_machine s) t ≡ (task_machine s, false))
unfolding transition initialize
transition_lem s t = elim (Bool-cases (can_transition (task_machine s) t)) [
  | inl h ↦ inl (rw h, (can_transition-⟶ s t).0 h)
  | inr h ↦ inr (rw h)
]

-- Whatever is attempted, a task machine only moves along the edges of the life cycle: it ends in a
-- state that a path of edges leads to.
pub attempts-⟶* :
    (s : TaskState) (ts : List TaskState)
    → (u : TaskState) × ((attempts (task_machine s) ts).0 ≡ task_machine u) × (s ⟶* u)
unfolding attempts
attempts-⟶* s [] = (s, refl, here)
attempts-⟶* s (t ∷ ts) = elim (transition_lem s t) [
  | inl (e, edge) ↦ let (u, q, path) = attempts-⟶* t ts in (u, rw e q, then edge path)
  | inr e ↦ let (u, q, path) = attempts-⟶* s ts in (u, rw e q, path)
]

-- A task machine in a terminal state stays there, and refuses every attempt.
pub attempts_terminal :
    (s : TaskState) (ts : List TaskState)
    → is_terminal s ≡ true
    → ((attempts (task_machine s) ts).0 ≡ task_machine s)
      × All (λ accepted. accepted ≡ false) (attempts (task_machine s) ts).1
unfolding attempts transition
attempts_terminal s [] h = (refl, tt)
attempts_terminal s (t ∷ ts) h =
    let (same, answers) = attempts_terminal s ts h in
    rw ((is_terminal_iff s).0 h t) (same, (refl, answers))

-- No edge leads to `pending`.
⟶-ne-pending : {s t : TaskState} → s ⟶ t → t ≢ TaskState.pending
⟶-ne-pending start = λ e. cc
⟶-ne-pending _ = λ e. cc

⟶*-ne-pending : {s t : TaskState} → s ⟶* t → s ≢ TaskState.pending → t ≢ TaskState.pending
⟶*-ne-pending here h = h
⟶*-ne-pending (then edge path) h = ⟶*-ne-pending path (⟶-ne-pending edge)

-- A task machine that is not in `pending` never gets back to it.
pub attempts-ne-pending :
    (s : TaskState) (ts : List TaskState)
    → s ≢ TaskState.pending
    → (attempts (task_machine s) ts).0 ≢ task_machine TaskState.pending
unfolding initialize
attempts-ne-pending s ts h e =
    let (u, q, path) = attempts-⟶* s ts in
    ⟶*-ne-pending path h
      (some-injective u TaskState.pending (ap (λ m. m.current_state) (sym q ∙ e)))

-- A completed or failed scenario refuses every state, and a cancelled one can only run again.
pub scenario_ends :
    (s t : ScenarioState)
    → can_transition (scenario_machine s) t ≡ true
    → ((s ≢ ScenarioState.completed) × (s ≢ ScenarioState.failed))
      × ((s ≢ ScenarioState.cancelled) ⊎ (t ≡ ScenarioState.running))
unfolding can_transition scenario_state_machine initialize ScenarioState-discrete
scenario_ends ScenarioState.completed t h = cc
scenario_ends ScenarioState.failed t h = cc
scenario_ends ScenarioState.initializing t h = ((λ e. cc, λ e. cc), inl (λ e. cc))
scenario_ends ScenarioState.running t h = ((λ e. cc, λ e. cc), inl (λ e. cc))
scenario_ends ScenarioState.cancelled ScenarioState.running h = ((λ e. cc, λ e. cc), inr refl)
scenario_ends ScenarioState.cancelled _ h = cc
