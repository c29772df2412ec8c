-- ===== src/LlmClient/Ids.antt =====
-- The ids of the subtasks that `decompose_goal` returns.
use agent_server_platform.Base.{
  ℕ, ◌+◌, String, ◌≡◌, refl, subst, ap, ap₂, ◌∙◌, true, Option, none, some, List, [], ◌∷◌, map,
  arith, string_eq, contains, All, Option-cases, inl, inr,
}
use agent_server_platform.Scheduling.Subtasks.{proposed_id}
use agent_server_platform.LlmClient.{
  LlmTask, Defaults, first_id, collect_ids, second_id, with_valid, validate_from, validate_tasks,
}

-- The id that each task with a goal asks for, or its automatic one.
abbrev pub proposed_ids : ℕ → List LlmTask → List String
proposed_ids idx [] = []
proposed_ids idx (t ∷ ts) = elim t.goal [
  | none ↦ proposed_ids (idx + 1) ts
  | some _ ↦ proposed_id idx t.id ∷ proposed_ids (idx + 1) ts
]

collect_ids-contains :
    (idx : ℕ) (valid : List String) (ts : List LlmTask) (a : String)
    → contains valid a ≡ true
    → contains (collect_ids idx valid ts) a ≡ true
unfolding collect_ids
collect_ids-contains idx valid [] a h = h
collect_ids-contains idx valid (t ∷ ts) a h = elim (Option-cases t.goal) [
  | inl e ↦ rw (e, collect_ids) (collect_ids-contains (idx + 1) valid ts a h)
  | inr (g, e) ↦
      rw (e, collect_ids)
        (collect_ids-contains (idx + 1) (first_id idx valid t ∷ valid) ts a
          (unfold contains in ground (arith, h)))
]

-- Every id that is asked for is noted by the first pass.
collect_ids-proposed :
    (idx : ℕ) (valid : List String) (ts : List LlmTask)
    → All (λ a. contains (collect_ids idx valid ts) a ≡ true) (proposed_ids idx ts)
unfolding collect_ids
collect_ids-proposed idx valid [] = tt
collect_ids-proposed idx valid (t ∷ ts) = elim (Option-cases t.goal) [
  | inl e ↦ rw (e, collect_ids, proposed_ids) (collect_ids-proposed (idx + 1) valid ts)
  | inr (g, e) ↦
      rw (e, collect_ids, proposed_ids)
        (
          collect_ids-contains (idx + 1) (first_id idx valid t ∷ valid) ts (proposed_id idx t.id)
              (unfold first_id in unfold contains in ground arith),
          collect_ids-proposed (idx + 1) (first_id idx valid t ∷ valid) ts,
        )
]

proposed_ids_absent :
    (idx : ℕ) (t : LlmTask) (ts : List LlmTask)
    → t.goal ≡ none
    → proposed_ids idx (t ∷ ts) ≡ proposed_ids (idx + 1) ts
proposed_ids_absent idx t ts e = rw (e, proposed_ids) refl

proposed_ids_present :
    (idx : ℕ) (t : LlmTask) (ts : List LlmTask) (g : Option String)
    → t.goal ≡ some g
    → proposed_ids idx (t ∷ ts) ≡ proposed_id idx t.id ∷ proposed_ids (idx + 1) ts
proposed_ids_present idx t ts g e = rw (e, proposed_ids) refl

validate_from-ids :
    (defaults : Defaults) (idx : ℕ) (valid : List String) (ts : List LlmTask)
    → All (λ a. contains valid a ≡ true) (proposed_ids idx ts)
    → map (λ s. s.id) (validate_from defaults idx valid ts) ≡ map some (proposed_ids idx ts)
unfolding validate_from
validate_from-ids defaults idx valid [] h = refl
validate_from-ids defaults idx valid (t ∷ ts) h = elim (Option-cases t.goal) [
  | inl e ↦
      let later = subst (All (λ a. contains valid a ≡ true)) (proposed_ids_absent idx t ts e) h in
      rw (e, validate_from, proposed_ids) (validate_from-ids defaults (idx + 1) valid ts later)
  | inr (g, e) ↦
      let all = subst (All (λ a. contains valid a ≡ true)) (proposed_ids_present idx t ts g e) h in
      let same : second_id idx valid t ≡ proposed_id idx t.id =
        unfold second_id in ground (arith, all.0) in
      let stays : with_valid (second_id idx valid t) valid ≡ valid =
        ap (λ a. with_valid a valid) same ∙ ground (arith, all.0) in
      rw (e, validate_from, proposed_ids)
        (ap₂ (λ a b. some a ∷ b) same
          (ap (λ v. map (λ s. s.id) (validate_from defaults (idx + 1) v ts)) stays
            ∙ validate_from-ids defaults (idx + 1) valid ts all.1))
]

-- The subtasks that come out of `decompose_goal` have the very ids that the tasks ask for, automatic ones
-- where none is given: an id that is asked for twice is kept twice, although the first pass has noted
-- another one for its second task.
pub validate_tasks-ids :
    (defaults : Defaults) (tasks : List LlmTask)
    → map (λ s. s.id) (validate_tasks defaults tasks) ≡ map some (proposed_ids 0 tasks)
unfolding validate_tasks
validate_tasks-ids defaults tasks =
    validate_from-ids defaults 0 (collect_ids 0 [] tasks) tasks (collect_ids-proposed 0 [] tasks)
