-- ===== src/Scheduling/Creation/Rows.antt =====
-- The rows that the creation of a plan leaves behind: `_create_subtask` and the creation loop of `run` in
-- src/core/agents/scheduling_agent.py.
use agent_server_platform.Base.{
  String, ◌≡◌, refl, sym, ◌∙◌, ap, Bool, true, false, ◌||◌, Option, none, some, List, [], ◌∷◌, ◌++◌,
  arith, string_eq, select, any, head?, All, Option-cases, Bool-cases, inl, inr,
}
use agent_server_platform.Database.Query.{sort_by}
use agent_server_platform.Database.Tasks.{Task, newer, find_by_idempotency_key}
use agent_server_platform.Scheduling.Subtasks.{Subtask}
use agent_server_platform.Scheduling.Creation.{
  Fresh, Resolved, key_of, new_row, create_subtask, create_subtasks,
}
use agent_server_platform.Scheduling.Creation.Idempotency.{has_key, key_of-ne, find_by_key-eq}

-- Some row has the idempotency key.
abbrev pub has_row : String → List Task → Bool
has_row key rows = any (has_key key) rows

select_none : (p : Task → Bool) (rows : List Task) → any p rows ≡ false → select p rows ≡ []
unfolding any select
select_none p [] h = refl
select_none p (t ∷ rows) h = ground (arith, select_none p rows)

any-added :
    (p : Task → Bool) (rows : List Task) (t : Task) → any p (rows ++ t ∷ []) ≡ (any p rows || p t)
unfolding any
any-added p [] t = ground arith
any-added p (r ∷ rows) t = ground (arith, any-added p rows t)

find-has_row :
    (key : String) (rows : List Task) (t : Task)
    → ¬ (key ≡ "")
    → find_by_idempotency_key key rows ≡ some t
    → has_row key rows ≡ true
unfolding sort_by
find-has_row key rows t proper e = elim (Bool-cases (has_row key rows)) [
  | inl yes_there ↦ yes_there
  | inr absent ↦
      let gone : find_by_idempotency_key key rows ≡ none =
        find_by_key-eq key rows proper
        ∙ ap (λ ts. head? (sort_by newer ts)) (select_none (has_key key) rows absent) in
      cc (sym e ∙ gone)
]

module _ (dumps_ids : List String → String) (dumps_context : Subtask → String) where
  create_subtask-keeps :
      (fresh : Fresh) (parent_task_id : String) (topic_id scenario_id : Option String)
      (sub : Subtask) (rows : List Task) (known : Resolved) (key : String)
      → has_row key rows ≡ true
      → has_row key
          (create_subtask dumps_ids dumps_context fresh parent_task_id topic_id scenario_id sub rows
            known).1
        ≡ true
  unfolding create_subtask
  create_subtask-keeps fresh parent_task_id topic_id scenario_id sub rows known key h =
      elim (Option-cases (find_by_idempotency_key (key_of parent_task_id sub) rows)) [
        | inl e ↦
            rw (e, create_subtask)
              (any-added (has_key key) rows (
                  new_row dumps_ids dumps_context fresh parent_task_id topic_id scenario_id known
                    sub)
                ∙ rw h refl)
        | inr (t, e) ↦ rw (e, create_subtask) h
      ]

  create_subtask-has_row :
      (fresh : Fresh) (parent_task_id : String) (topic_id scenario_id : Option String)
      (sub : Subtask) (rows : List Task) (known : Resolved)
      → has_row
          (key_of parent_task_id sub)
          (create_subtask dumps_ids dumps_context fresh parent_task_id topic_id scenario_id sub rows
            known).1
        ≡ true
  unfolding create_subtask
  create_subtask-has_row fresh parent_task_id topic_id scenario_id sub rows known =
      let key = key_of parent_task_id sub in
      elim (Option-cases (find_by_idempotency_key (key_of parent_task_id sub) rows)) [
        | inl e ↦
            rw (e, create_subtask)
              (any-added (has_key key) rows (
                  new_row dumps_ids dumps_context fresh parent_task_id topic_id scenario_id known
                    sub)
                ∙ ground arith)
        | inr (t, e) ↦
            rw (e, create_subtask)
              (find-has_row (key_of parent_task_id sub) rows t (key_of-ne parent_task_id sub) e)
      ]

  create_subtasks-keeps :
      (fresh : Subtask → Fresh) (parent_task_id : String) (topic_id scenario_id : Option String)
      (subs : List Subtask) (rows : List Task) (known : Resolved) (key : String)
      → has_row key rows ≡ true
      → has_row key
          (create_subtasks dumps_ids dumps_context fresh parent_task_id topic_id scenario_id subs
            rows known).0
        ≡ true
  unfolding create_subtasks
  create_subtasks-keeps fresh parent_task_id topic_id scenario_id [] rows known key h = h
  create_subtasks-keeps fresh parent_task_id topic_id scenario_id (sub ∷ subs) rows known key h =
      create_subtasks-keeps fresh parent_task_id topic_id scenario_id subs _ _ key
        (create_subtask-keeps (fresh sub) parent_task_id topic_id scenario_id sub rows known key h)

  -- After the creation of a plan every subtask of it has a row with its key, created now or before.
  pub create_subtasks-has_row :
      (fresh : Subtask → Fresh) (parent_task_id : String) (topic_id scenario_id : Option String)
      (subs : List Subtask) (rows : List Task) (known : Resolved)
      → All
          (λ sub.
            has_row
              (key_of parent_task_id sub)
              (create_subtasks dumps_ids dumps_context fresh parent_task_id topic_id scenario_id
                subs rows known).0
            ≡ true)
          subs
  unfolding create_subtasks
  create_subtasks-has_row fresh parent_task_id topic_id scenario_id [] rows known = tt
  create_subtasks-has_row fresh parent_task_id topic_id scenario_id (sub ∷ subs) rows known = (
    create_subtasks-keeps fresh parent_task_id topic_id scenario_id subs _ _
        (key_of parent_task_id sub)
        (create_subtask-has_row (fresh sub) parent_task_id topic_id scenario_id sub rows known),
    create_subtasks-has_row fresh parent_task_id topic_id scenario_id subs _ _,
  )
