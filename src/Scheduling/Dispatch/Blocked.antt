-- ===== src/Scheduling/Dispatch/Blocked.antt =====
-- Who is skipped in a wave.
use agent_server_platform.Base.{
  ℕ, String, ◌≡◌, refl, sym, ap, ◌≢◌, Bool, false, not, ◌||◌, Option, none, some, List, [], ◌∷◌,
  ◌++◌, arith, string_eq, if◌then◌else◌, map, Option-cases, contains, any, All, All-weaken,
  contains-append, Bool-cases, inl, inr,
}
use mathlib.Core.List.{append-nil, append_assoc}
use agent_server_platform.Base.Dict.{lookup}
use agent_server_platform.Database.Tasks.{Task, mark_as_failed}
use agent_server_platform.Scheduling.Subtasks.{Subtask}
use agent_server_platform.Scheduling.Creation.{Resolved}
use agent_server_platform.Scheduling.Dispatch.{
  is_failed, is_blocked, skip_error, task_id_of, pick_wave,
}

-- No dependency of the subtask stands for the task.
abbrev pub IsIndependent : Resolved → String → Subtask → Type 0
IsIndependent known task_id sub = All (λ d. lookup d known ≢ some task_id) sub.depends_on

any-is_failed :
    (known : Resolved) (failed_ids : List String) (task_id : String) (ds : List String)
    → All (λ d. lookup d known ≢ some task_id) ds
    → any (is_failed known (failed_ids ++ task_id ∷ [])) ds ≡ any (is_failed known failed_ids) ds
unfolding any contains
any-is_failed known failed_ids task_id [] h = refl
any-is_failed known failed_ids task_id (d ∷ ds) h =
    go (lookup d known) h.0 (any-is_failed known failed_ids task_id ds h.1)
  where
    go :
        (o : Option String)
        → o ≢ some task_id
        → any (is_failed known (failed_ids ++ task_id ∷ [])) ds
          ≡ any (is_failed known failed_ids) ds
        → (elim o as (λ _. Bool) [ none ↦ false | some t ↦ contains (failed_ids ++ task_id ∷ []) t ]
            || any (is_failed known (failed_ids ++ task_id ∷ [])) ds)
          ≡ (elim o as (λ _. Bool) [ none ↦ false | some t ↦ contains failed_ids t ]
              || any (is_failed known failed_ids) ds)
    go none h e = e
    go (some t) h e = ground (arith, h, e, contains-append t failed_ids (task_id ∷ []))

-- What fails inside a wave blocks no subtask that is independent of it.
is_blocked-independent :
    (known : Resolved) (failed_ids : List String) (task_id : String) (sub : Subtask)
    → IsIndependent known task_id sub
    → is_blocked known (failed_ids ++ task_id ∷ []) sub ≡ is_blocked known failed_ids sub
unfolding is_blocked
is_blocked-independent known failed_ids task_id sub h =
    any-is_failed known failed_ids task_id sub.depends_on h

-- No subtask of the wave depends on the task of an earlier one, as in a wave of `_build_waves`.
abbrev pub IsWave : Resolved → List Subtask → Type 0
IsWave known [] = Unit
IsWave known (sub ∷ subs) =
    ((task_id : String)
      → task_id_of known sub ≡ some task_id
      → All (IsIndependent known task_id) subs)
    × IsWave known subs

-- The subtasks of a wave with a task id, by whether a failed task blocks them.
unfoldable pub with_task : Resolved → (Subtask → Bool) → List Subtask → List (Subtask × String)
with_task known p [] = []
with_task known p (sub ∷ subs) =
    let rest = with_task known p subs in
    elim (task_id_of known sub) [
      | none ↦ rest
      | some task_id ↦ if p sub then (sub, task_id) ∷ rest else rest
    ]

with_task-eq :
    (known : Resolved) (p q : Subtask → Bool) (subs : List Subtask)
    → All (λ sub. p sub ≡ q sub) subs
    → with_task known p subs ≡ with_task known q subs
unfolding with_task
with_task-eq known p q [] h = refl
with_task-eq known p q (sub ∷ subs) h =
    go (task_id_of known sub) h.0 (with_task-eq known p q subs h.1)
  where
    go :
        (o : Option String)
        → p sub ≡ q sub
        → with_task known p subs ≡ with_task known q subs
        → elim o as (λ _. List (Subtask × String)) [
          | none ↦ with_task known p subs
          | some t ↦ if p sub then (sub, t) ∷ with_task known p subs else with_task known p subs
        ]
          ≡ elim o as (λ _. List (Subtask × String)) [
            | none ↦ with_task known q subs
            | some t ↦ if q sub then (sub, t) ∷ with_task known q subs else with_task known q subs
          ]
    go none same rest = rest
    go (some t) same rest = rw (same, rest) refl

abbrev pub second_of : Subtask × String → String
second_of p = p.1

-- The tasks of the list are marked as failed, one after the other.
abbrev pub failing : ℕ → List String → List Task → List Task
failing now [] rows = rows
failing now (task_id ∷ task_ids) rows =
    failing now task_ids (mark_as_failed now task_id skip_error rows).0

-- In a wave without dependencies inside, exactly the subtasks with a task go out that none of the
-- tasks failed before the wave blocks; the tasks of the others are added to the failed ones, and their
-- rows, and no other, are marked as failed for a predecessor, in the order of the wave.
pub pick_wave-eq :
    (now : ℕ) (known : Resolved) (wave : List Subtask) (failed_ids : List String) (rows : List Task)
    → IsWave known wave
    → ((pick_wave now known wave failed_ids rows).0
        ≡ with_task known (λ sub. not (is_blocked known failed_ids sub)) wave)
      × ((pick_wave now known wave failed_ids rows).1
          ≡ failed_ids ++ map second_of (with_task known (is_blocked known failed_ids) wave))
      × ((pick_wave now known wave failed_ids rows).2
          ≡ failing now (map second_of (with_task known (is_blocked known failed_ids) wave)) rows)
unfolding pick_wave with_task
pick_wave-eq now known [] failed_ids rows h = (refl, sym (append-nil failed_ids), refl)
pick_wave-eq now known (sub ∷ subs) failed_ids rows h = elim (Option-cases (task_id_of known sub)) [
  | inl e ↦
      let (out, marked, written) = pick_wave-eq now known subs failed_ids rows h.1 in
      ground (arith, e, out, marked, written)
  | inr (t, e) ↦ elim (Bool-cases (is_blocked known failed_ids sub)) [
    | inl b ↦
        let after = (mark_as_failed now t skip_error rows).0 in
        let (out, marked, written) = pick_wave-eq now known subs (failed_ids ++ t ∷ []) after h.1 in
        let same =
          All-weaken subs (λ s i. is_blocked-independent known failed_ids t s i) (h.0 t e) in
        ground (
          arith,
          e,
          b,
          out,
          marked,
          written,
          with_task-eq known (is_blocked known (failed_ids ++ t ∷ [])) (is_blocked known failed_ids)
              subs same,
          with_task-eq known (λ s. not (is_blocked known (failed_ids ++ t ∷ []) s))
              (λ s. not (is_blocked known failed_ids s)) subs
              (All-weaken subs (λ s q. ap not q) same),
          append_assoc failed_ids (t ∷ [])
              (map second_of (with_task known (is_blocked known failed_ids) subs)),
        )
    | inr b ↦
        let (out, marked, written) = pick_wave-eq now known subs failed_ids rows h.1 in
        ground (arith, e, b, out, marked, written)
  ]
]
