-- ===== src/BaseScenario/Waiting.antt =====
-- What the loop of `wait_for_task` answers.
use agent_server_platform.Base.{
  String, ◌≡◌, refl, ◌≢◌, Bool, true, false, Option, none, some, List, [], ◌∷◌, ◌==◌, string_eq,
  if◌then◌else◌, arith, contains, Bool-cases, inl, inr,
}
use agent_server_platform.StateMachine.{TaskState, TaskState-discrete, is_terminal}
use agent_server_platform.Database.Tasks.{Task, find_by_task_id}
use agent_server_platform.BaseScenario.{Waited, answered, unreadable, report, look, wait_for_task}

-- Whether a task with the state is over.
abbrev pub is_over : TaskState → Bool
is_over TaskState.pending = false
is_over TaskState.running = false
is_over TaskState.waiting = false
is_over TaskState.success = true
is_over TaskState.failed = true
is_over TaskState.timeout = true
is_over TaskState.cancelled = true

-- The row of the task in the first poll that finds it over.
unfoldable pub first_over : String → List (List Task) → Option Task
first_over task_id [] = none
first_over task_id (rows ∷ polls) =
    let later = first_over task_id polls in
    elim (find_by_task_id task_id rows) [
      | none ↦ later
      | some t ↦ if is_over t.state then some t else later
    ]

module _ {D : Type 0} (loads : String → Option D) where
  -- What may be told of a row: no result where it has none or an empty one, the value of its result, or
  -- the error of reading it.
  pub data IsTold (t : Task) : Waited D → Type 0 where
    without : t.result ≡ none → IsTold t (answered t.state none t.error)
    blank : t.result ≡ some "" → IsTold t (answered t.state none t.error)
    read :
        {text : String} {d : D}
        → t.result ≡ some text
        → text ≢ ""
        → loads text ≡ some d
        → IsTold t (answered t.state (some d) t.error)
    torn :
        {text : String} → t.result ≡ some text → text ≢ "" → loads text ≡ none → IsTold t unreadable

  -- What may be told of the row that was found over, or of none.
  abbrev pub IsAnswer : Option Task → Waited D → Type 0
  IsAnswer none w =
      w ≡ answered TaskState.timeout none (some "Task did not complete within timeout")
  IsAnswer (some t) w = IsTold t w

  read-IsTold :
      (t : Task) (text : String) (o : Option D)
      → t.result ≡ some text
      → text ≢ ""
      → loads text ≡ o
      → IsTold t (elim o [ none ↦ unreadable | some d ↦ answered t.state (some d) t.error ])
  read-IsTold t text none e differs parsed = torn e differs parsed
  read-IsTold t text (some d) e differs parsed = read e differs parsed

  report-IsTold : (t : Task) → IsTold t (report loads t)
  report-IsTold t = go t.result refl
    where
      go :
          (o : Option String)
          → t.result ≡ o
          → IsTold t (elim o as (λ _. Waited D) [
            | none ↦ answered t.state none t.error
            | some text ↦ if text == "" then answered t.state none t.error else elim (loads text) [
              | none ↦ unreadable
              | some d ↦ answered t.state (some d) t.error
            ]
          ])
      go none e = without e
      go (some text) e = elim (Bool-cases (text == "")) [
        | inl same ↦ rw same (blank (ground (arith, e)))
        | inr other ↦ rw other (read-IsTold t text (loads text) e (ground arith) refl)
      ]

  is_terminal-is_over : (s : TaskState) → is_terminal s ≡ is_over s
  unfolding is_terminal contains TaskState-discrete
  is_terminal-is_over TaskState.pending = refl
  is_terminal-is_over TaskState.running = refl
  is_terminal-is_over TaskState.waiting = refl
  is_terminal-is_over TaskState.success = refl
  is_terminal-is_over TaskState.failed = refl
  is_terminal-is_over TaskState.timeout = refl
  is_terminal-is_over TaskState.cancelled = refl

  -- One more poll before the others.
  look-IsAnswer :
      (found later : Option Task) (w : Waited D)
      → IsAnswer later w
      → IsAnswer
          (elim found as (λ _. Option Task) [
            | none ↦ later
            | some t ↦ if is_over t.state then some t else later
          ])
          (look loads found w)
  look-IsAnswer none later w h = h
  look-IsAnswer (some t) later w h = elim (Bool-cases (is_over t.state)) [
    | inl over ↦ rw (over, is_terminal-is_over t.state, over) (report-IsTold t)
    | inr going ↦ rw (going, is_terminal-is_over t.state, going) h
  ]

  -- Whatever the polls see, `wait_for_task` tells the state and the error of the first row of the task
  -- that is over, in one of the four end states, with the value of its result if it has one that is not
  -- empty, and raises if that cannot be read; when no poll finds the task over, it answers `timeout`.
  pub wait_for_task-IsAnswer :
      (task_id : String) (polls : List (List Task))
      → IsAnswer (first_over task_id polls) (wait_for_task loads task_id polls)
  unfolding wait_for_task first_over
  wait_for_task-IsAnswer task_id [] = refl
  wait_for_task-IsAnswer task_id (rows ∷ polls) =
      look-IsAnswer (find_by_task_id task_id rows) (first_over task_id polls)
        (wait_for_task loads task_id polls) (wait_for_task-IsAnswer task_id polls)
