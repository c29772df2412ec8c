-- ===== src/Scheduling/Subtasks/Unique.antt =====
-- When the ids of `_normalize_subtasks` are unique.
use agent_server_platform.Base.{
  ℕ, ◌+◌, String, ◌≡◌, refl, true, false, ◌&&◌, List, [], ◌∷◌, map, arith, string_eq, if◌then◌else◌,
  contains, count,
}
use agent_server_platform.Scheduling.Subtasks.{
  RawSubtask, auto_id, proposed_id, chosen_id, normalize_from, normalize_subtasks,
}

-- A subtask gets an id that is taken exactly when the id it proposes and its automatic one both are.
pub contains-chosen_id :
    (idx : ℕ) (seen : List String) (sub : RawSubtask)
    → contains seen (chosen_id idx seen sub)
      ≡ (contains seen (proposed_id idx sub.id) && contains seen (auto_id (idx + 1)))
unfolding chosen_id
contains-chosen_id idx seen sub = ground arith

-- The automatic ids are free when their turn comes.
abbrev pub IsFree : ℕ → List String → List RawSubtask → Type 0
IsFree idx seen [] = Unit
IsFree idx seen (sub ∷ subs) =
    (contains seen (auto_id (idx + 1)) ≡ false)
    × IsFree (idx + 1) (chosen_id idx seen sub ∷ seen) subs

fresh_from :
    (a : String) (idx : ℕ) (seen : List String) (subs : List RawSubtask)
    → IsFree idx seen subs
    → count a (map (λ s. s.id) (normalize_from idx seen subs))
        ≡ (if contains (map (λ s. s.id) (normalize_from idx seen subs)) a then 1 else 0)
      × (contains seen a ≡ true
          → contains (map (λ s. s.id) (normalize_from idx seen subs)) a ≡ false)
unfolding normalize_from count contains
fresh_from a idx seen [] h = (refl, λ m. refl)
fresh_from a idx seen (sub ∷ subs) h =
    let (once, apart) = fresh_from a (idx + 1) (chosen_id idx seen sub ∷ seen) subs h.1 in
    ground (arith, h.0, once, apart, contains-chosen_id idx seen sub)

-- When no automatic id is taken before its turn, the subtasks get ids that are all different.
pub normalize_subtasks-count :
    (subs : List RawSubtask)
    → IsFree 0 [] subs
    → (a : String)
    → count a (map (λ s. s.id) (normalize_subtasks subs))
      ≡ (if contains (map (λ s. s.id) (normalize_subtasks subs)) a then 1 else 0)
unfolding normalize_subtasks
normalize_subtasks-count subs h a = (fresh_from a 0 [] subs h).0
