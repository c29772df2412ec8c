-- ===== src/Scheduling/Run/Failures.antt =====
-- What the loop over the waves does with failures.
use agent_server_platform.Base.{
  ℕ, ◌+◌, String, ◌≡◌, Bool, true, List, [], ◌∷◌, ◌++◌, arith, string_eq, if◌then◌else◌, map,
  contains, contains-append, inl, inr, Option-cases,
}
use agent_server_platform.Base.Dict.{insert}
use agent_server_platform.Database.Tasks.{Task, mark_as_failed}
use agent_server_platform.Database.Messages.{TaskMessage, ReplyMessage}
use agent_server_platform.Scheduling.Subtasks.{Subtask}
use agent_server_platform.Scheduling.Creation.{Resolved}
use agent_server_platform.Scheduling.Dispatch.{
  AgentRole, Replies, task_id_of, skip_error, pick_wave,
}
use agent_server_platform.Scheduling.Run.{Progress, absorb, after_wave, run_waves, message_of}

pick_wave-keeps :
    (now : ℕ) (known : Resolved) (t : String) (wave : List Subtask) (failed_ids : List String)
    (rows : List Task)
    → contains failed_ids t ≡ true
    → contains (pick_wave now known wave failed_ids rows).1 t ≡ true
unfolding pick_wave
pick_wave-keeps now known t [] failed_ids rows h = h
pick_wave-keeps now known t (sub ∷ subs) failed_ids rows h =
    elim (Option-cases (task_id_of known sub)) [
      | inl e ↦ ground (arith, e, pick_wave-keeps now known t subs failed_ids rows h)
      | inr (id, e) ↦ ground (
        arith,
        e,
        pick_wave-keeps now known t subs failed_ids rows h,
        pick_wave-keeps now known t subs (failed_ids ++ id ∷ [])
            (mark_as_failed now id skip_error rows).0
            (ground (arith, h, contains-append t failed_ids (id ∷ []))),
      )
    ]

module _ (parent_task_id : String) (configured_roles : List AgentRole) (known : Resolved)
    (t : String) where
  absorb-keeps :
      (rs : List ReplyMessage) (failed_ids : List String) (all_replies : Replies)
      → contains failed_ids t ≡ true
      → contains (absorb parent_task_id configured_roles known rs failed_ids all_replies).0 t ≡ true
  unfolding absorb
  absorb-keeps [] failed_ids all_replies h = h
  absorb-keeps (r ∷ rs) failed_ids all_replies h =
      absorb-keeps rs (if r.success then failed_ids else failed_ids ++ r.task_id ∷ [])
        (insert r.task_id r.result all_replies)
        (ground (arith, h, contains-append t failed_ids (r.task_id ∷ [])))

  module _ (now : ℕ) (in_time : ℕ → Bool) (collect : ℕ → List TaskMessage → List ReplyMessage) where
    after_wave-keeps :
        (wave_idx : ℕ) (later : List (List Subtask)) (picked : List (Subtask × String))
        (s : Progress)
        → contains s.failed_ids t ≡ true
        → contains
            (after_wave parent_task_id configured_roles known now in_time collect wave_idx later
              picked s).failed_ids
            t
          ≡ true
    unfolding after_wave
    after_wave-keeps wave_idx later picked s h =
        absorb-keeps
          (collect wave_idx
            (map (message_of parent_task_id configured_roles known s.all_replies) picked))
          s.failed_ids s.all_replies h

    -- A task that has failed stays among the failed ones through all the waves, whatever the clock
    -- and the replies are.
    pub run_waves-failed_ids :
        (waves : List (List Subtask)) (wave_idx : ℕ) (s : Progress)
        → contains s.failed_ids t ≡ true
        → contains
            (run_waves parent_task_id configured_roles known now in_time collect wave_idx waves
              s).failed_ids
            t
          ≡ true
    unfolding run_waves
    run_waves-failed_ids [] wave_idx s h = h
    run_waves-failed_ids (wave ∷ later) wave_idx s h =
        let (picked, failed, rows) = pick_wave now known wave s.failed_ids s.rows in
        let skipping : Progress = record s { failed_ids = failed; rows = rows } in
        let kept = pick_wave-keeps now known t wave s.failed_ids s.rows h in
        ground (
          arith,
          h,
          run_waves-failed_ids later (wave_idx + 1) skipping kept,
          run_waves-failed_ids later (wave_idx + 1)
              (after_wave parent_task_id configured_roles known now in_time collect wave_idx later
                picked skipping)
              (after_wave-keeps wave_idx later picked skipping kept),
        )
