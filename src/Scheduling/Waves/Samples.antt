-- ===== src/Scheduling/Waves/Samples.antt =====
-- A diamond of four subtasks and a cycle of two.
use agent_server_platform.Base.{
  ℕ, ◌<◌, String, ◌≡◌, refl, true, none, some, List, [], ◌∷◌, map, arith, ◌==◌, string_eq,
  if◌then◌else◌, contains, count, all, flatten, select, ne_of_test,
}
use agent_server_platform.Scheduling.Subtasks.{Subtask}
use agent_server_platform.Base.Dict.{insert, lookup, keys}
use agent_server_platform.Scheduling.Waves.{
  waves, cycle, resolved, by_id, prepend, build_waves, deps_of, rounds,
}
use agent_server_platform.Scheduling.Waves.Order.{OnWaves, IsOrdered, Later}
use agent_server_platform.Scheduling.Waves.Cycle.{OnCycle, IsStuck}
use agent_server_platform.Scheduling.Waves.Plan.{
  ids_of, build_waves-partition, build_waves-IsOrdered, build_waves-IsTight, build_waves-IsStuck,
  build_waves_acyclic,
}

abbrev sub : String → List String → Subtask
sub id depends_on = record {
  id = id;
  depends_on = depends_on;
  goal = some "g";
  role = none;
  system_prompt = none;
  priority = none;
  timeout_seconds = none;
}

abbrev diamond : List Subtask
diamond =
    sub "d" ("b" ∷ "c" ∷ []) ∷ sub "b" ("a" ∷ []) ∷ sub "c" ("a" ∷ "c" ∷ "x" ∷ []) ∷ sub "a" [] ∷ []

abbrev loop : List Subtask
loop = sub "a" ("b" ∷ []) ∷ sub "b" ("a" ∷ []) ∷ sub "c" [] ∷ []

abbrev pair : List Subtask
pair = sub "b" ("a" ∷ []) ∷ sub "a" [] ∷ []

abbrev same_order : List String → List String
same_order ids = ids

diamond-waves :
    build_waves same_order diamond
    ≡ waves (
        (sub "a" [] ∷ [])
        ∷ (sub "b" ("a" ∷ []) ∷ sub "c" ("a" ∷ "c" ∷ "x" ∷ []) ∷ [])
        ∷ (sub "d" ("b" ∷ "c" ∷ []) ∷ [])
        ∷ [])
unfolding build_waves resolved rounds keys by_id insert string_eq select all deps_of lookup contains
    prepend
diamond-waves = refl

loop-cycle : build_waves same_order loop ≡ cycle ("a" ∷ "b" ∷ [])
unfolding build_waves resolved rounds keys by_id insert string_eq select all deps_of lookup contains
    prepend
loop-cycle = refl

build_waves-partition_example :
    OnWaves
      (λ ws.
        (a : String)
        → count a (flatten (ids_of ws)) ≡ (if contains (map (λ s. s.id) diamond) a then 1 else 0))
      (build_waves same_order diamond)
build_waves-partition_example = build_waves-partition same_order (λ a xs. refl) diamond

build_waves-IsOrdered_example :
    OnWaves (λ ws. IsOrdered (deps_of diamond) [] (ids_of ws)) (build_waves same_order diamond)
build_waves-IsOrdered_example = build_waves-IsOrdered same_order (λ a xs. refl) diamond

build_waves-IsTight_example :
    OnWaves (λ ws. Later (deps_of diamond) (ids_of ws)) (build_waves same_order diamond)
build_waves-IsTight_example = build_waves-IsTight same_order (λ a xs. refl) diamond

build_waves-IsStuck_example : OnCycle (IsStuck (deps_of loop)) (build_waves same_order loop)
build_waves-IsStuck_example = build_waves-IsStuck same_order (λ a xs. refl) loop

rank : String → ℕ
rank id = if id == "b" then 1 else 0

rank_grows : (sid d : String) → contains (deps_of pair sid) d ≡ true → rank d < rank sid
unfolding rank deps_of contains keys lookup insert select string_eq by_id
rank_grows sid d h = ground (arith, ne_of_test "a" "b" refl)

build_waves_acyclic_example : (ws : List (List Subtask)) × (build_waves same_order pair ≡ waves ws)
build_waves_acyclic_example = build_waves_acyclic same_order (λ a xs. refl) pair rank rank_grows
