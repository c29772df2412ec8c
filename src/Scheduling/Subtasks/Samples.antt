-- ===== src/Scheduling/Subtasks/Samples.antt =====
-- Small decompositions.
use agent_server_platform.Base.{
  String, ◌≡◌, refl, Option, none, some, [], ◌∷◌, map, string_eq, if◌then◌else◌, List, count,
  contains,
}
use agent_server_platform.Scheduling.Subtasks.{
  Deps, listed, other, RawSubtask, auto_id, normalize_subtasks, chosen_id,
}
use agent_server_platform.Scheduling.Subtasks.Unique.{IsFree, normalize_subtasks-count}

abbrev raw : Option String → Option Deps → RawSubtask
raw id depends_on = record {
  id = id;
  depends_on = depends_on;
  goal = some "g";
  role = none;
  system_prompt = none;
  priority = none;
  timeout_seconds = none;
}

auto_id-12 : auto_id 12 ≡ "t12"
unfolding auto_id
auto_id-12 = refl

ids_filled :
    map
      (λ s. s.id)
      (normalize_subtasks
        (raw none none ∷ raw (some "a") (some other) ∷ raw (some "a") (some (listed [])) ∷ []))
    ≡ "t1" ∷ "a" ∷ "t3" ∷ []
unfolding normalize_subtasks auto_id string_eq contains
ids_filled = refl

-- The id that replaces a repeated one may itself be taken.
ids_clash :
    map (λ s. s.id) (normalize_subtasks (raw (some "t2") none ∷ raw (some "t2") none ∷ []))
    ≡ "t2" ∷ "t2" ∷ []
unfolding normalize_subtasks auto_id string_eq contains
ids_clash = refl

abbrev mixed : List RawSubtask
mixed = raw none none ∷ raw (some "a") (some other) ∷ raw (some "a") (some (listed [])) ∷ []

mixed-IsFree : IsFree 0 [] mixed
unfolding chosen_id auto_id string_eq contains
mixed-IsFree = (refl, (refl, (refl, tt)))

normalize_subtasks-count_example :
    count "a" (map (λ s. s.id) (normalize_subtasks mixed))
    ≡ (if contains (map (λ s. s.id) (normalize_subtasks mixed)) "a" then 1 else 0)
normalize_subtasks-count_example = normalize_subtasks-count mixed mixed-IsFree "a"
