-- ===== src/Scheduling/Creation/Idempotency.antt =====
-- Creating a subtask again gives the task that is there, and a transition is one of the machine's.
use agent_server_platform.Base.{
  ℕ, String, ◌<>◌, ◌≡◌, refl, sym, ◌≢◌, ap, Bool, Option, none, some, List, [], ◌∷◌, ◌++◌,
  option_map, arith, select-append, string_eq, if◌then◌else◌, select, head?, Option-cases, inl, inr,
  ◌∙◌,
}
use text.Mathlib.TextLemmas.{length-append}
use Prim.Native.String.{count as size}
use agent_server_platform.StateMachine.{TaskState, task_state_eq, can_transition, task_machine}
use agent_server_platform.Database.Query.{sort_by, limited, column_is, empty-of-head}
use agent_server_platform.Database.Tasks.{Task, newer, find_by_idempotency_key, set_state}
use agent_server_platform.Database.Tasks.Update.{
  IsKeyed, find, find_by_task_id-find, update_task_state-at,
}
use agent_server_platform.Database.Tasks.Keys.{find-at}
use agent_server_platform.Scheduling.Subtasks.{Subtask}
use agent_server_platform.Scheduling.Creation.{
  Fresh, or_else, Resolved, key_of, new_row, create_subtask, transition_task_state,
}

pub key_of-ne : (parent_task_id : String) (subtask : Subtask) → key_of parent_task_id subtask ≢ ""
key_of-ne parent_task_id subtask e = absurd (
    omega (
      arith,
      ap size e,
      length-append parent_task_id (":" <> or_else subtask.goal ""),
      length-append ":" (or_else subtask.goal ""),
    ))

abbrev pub has_key : String → Task → Bool
has_key key t = column_is key t.idempotency_key

pub find_by_key-eq :
    (key : String) (rows : List Task)
    → key ≢ ""
    → find_by_idempotency_key key rows ≡ head? (sort_by newer (select (has_key key) rows))
unfolding find_by_idempotency_key limited
find_by_key-eq key rows proper = ground (arith, proper)

select-added :
    (key : String) (rows : List Task) (t : Task)
    → t.idempotency_key ≡ some key
    → select (has_key key) rows ≡ []
    → select (has_key key) (rows ++ t ∷ []) ≡ t ∷ []
unfolding select
select-added key rows t has absent =
    rw (select-append (has_key key) rows (t ∷ []), absent, has) (ground arith)

-- A key that no row has is found once a row with it is added.
find-added :
    (key : String) (rows : List Task) (t : Task)
    → key ≢ ""
    → t.idempotency_key ≡ some key
    → find_by_idempotency_key key rows ≡ none
    → find_by_idempotency_key key (rows ++ t ∷ []) ≡ some t
unfolding sort_by
find-added key rows t proper has h =
    let absent =
      empty-of-head newer (select (has_key key) rows) (sym (find_by_key-eq key rows proper) ∙ h) in
    find_by_key-eq key (rows ++ t ∷ []) proper
    ∙ ap (λ ts. head? (sort_by newer ts)) (select-added key rows t has absent)

module _ (dumps_ids : List String → String) (dumps_context : Subtask → String) where
  -- Creating a subtask twice under one parent gives one task: the second call answers with the same id
  -- and adds no row, whatever else its dict says and whatever was resolved in between.
  pub create_subtask_again :
      (fresh later : Fresh) (parent_task_id : String)
      (topic_id scenario_id later_topic later_scenario : Option String) (subtask again : Subtask)
      (rows : List Task) (known later_known : Resolved)
      → again.goal ≡ subtask.goal
      → let first =
          create_subtask dumps_ids dumps_context fresh parent_task_id topic_id scenario_id subtask
            rows known in
        let second =
          create_subtask dumps_ids dumps_context later parent_task_id later_topic later_scenario
            again first.1 later_known in
        (second.0 ≡ first.0) × (second.1 ≡ first.1)
  unfolding create_subtask
  create_subtask_again fresh later parent_task_id topic_id scenario_id later_topic later_scenario
        subtask again rows known later_known same =
      elim (Option-cases (find_by_idempotency_key (key_of parent_task_id subtask) rows)) [
        | inl e ↦
            let added =
              find-added (key_of parent_task_id subtask) rows
                (new_row dumps_ids dumps_context fresh parent_task_id topic_id scenario_id known
                  subtask)
                (key_of-ne parent_task_id subtask) refl e in
            ground (arith, same, e, added)
        | inr (t, e) ↦ ground (arith, same, e)
      ]

-- A row changes its state only along an edge of the task machine; the answer tells whether it did.
pub transition_task_state-state :
    (now : ℕ) (task_id : String) (new_state : TaskState) (rows : List Task) (row : Task)
    → IsKeyed rows
    → find task_id rows ≡ some row
    → let after = transition_task_state now task_id new_state rows in
      let allowed = can_transition (task_machine row.state) new_state in
      (option_map (λ t. t.state) (find task_id after.0)
        ≡ some (if allowed then new_state else row.state))
      × (after.1 ≡ allowed)
unfolding transition_task_state
transition_task_state-state now task_id new_state rows row keyed e = ground (
  arith,
  e,
  find_by_task_id-find task_id rows keyed,
  update_task_state-at now task_id rows keyed new_state,
  find-at (set_state now new_state) task_id task_id rows (λ t. (refl, refl)),
)
