-- ===== src/Scheduling/Waves/Plan.antt =====
-- `_build_waves` on a whole plan: what its waves and its cycles say of the subtasks.
use agent_server_platform.Base.{
  ℕ, ◌<◌, String, ◌≡◌, refl, sym, subst, true, List, [], map, arith, ◌∙◌, All-of_contains,
  string_eq, if◌then◌else◌, contains, count, length, flatten, All,
}
use agent_server_platform.Base.Dict.{keys}
use agent_server_platform.Scheduling.Subtasks.{Subtask}
use agent_server_platform.Scheduling.Waves.{
  Outcome, waves, cycle, unfinished, rounds, is_known, by_id, deps_of, resolved, build_waves,
}
use agent_server_platform.Scheduling.Waves.Ids.{
  contains-keys, deps_of-known, by_id-IsNamed, resolve_all-id, count-keys-by_id,
}
use agent_server_platform.Scheduling.Waves.Loop.{IsOrder, contains-eq_of_count}
use agent_server_platform.Scheduling.Waves.Order.{
  OnWaves-weaken, OnWaves, IsOrdered, Later, rounds-Partition, rounds-IsOrdered, rounds-IsTight,
}
use agent_server_platform.Scheduling.Waves.Cycle.{OnCycle, IsStuck, rounds-IsStuck, not-IsStuck}

-- The ids of the plan in waves, which `build_waves` looks up.
abbrev pub id_waves : (List String → List String) → List Subtask → Outcome String
id_waves iter subtasks =
    let ids = keys (by_id subtasks) in rounds iter (deps_of subtasks) (length ids) [] ids

-- The waves of ids behind the waves of subtasks.
abbrev pub ids_of : List (List Subtask) → List (List String)
ids_of = map (map (λ s. s.id))

module _ (iter : List String → List String) (order : IsOrder iter) (subtasks : List Subtask) where
  partition :
      OnWaves
        (λ ws. (a : String) → count a (flatten ws) ≡ count a (keys (by_id subtasks)))
        (id_waves iter subtasks)
  partition =
      rounds-Partition iter order (deps_of subtasks) _ [] (keys (by_id subtasks)) (omega arith)

  All-known :
      (ws : List (List String))
      → ((a : String) → count a (flatten ws) ≡ count a (keys (by_id subtasks)))
      → All (λ sid. is_known (by_id subtasks) sid ≡ true) (flatten ws)
  All-known ws h = All-of_contains _ (flatten ws) (λ sid m. ground (
    arith,
    contains-eq_of_count sid (flatten ws) (keys (by_id subtasks)) (h sid),
    contains-keys sid (by_id subtasks),
  ))

  -- What the loop says of the ids holds of the subtasks that it returns.
  on_subtasks :
      (P : List (List String) → Type 0)
      → OnWaves P (id_waves iter subtasks)
      → OnWaves (λ ws. P (ids_of ws)) (build_waves iter subtasks)
  unfolding build_waves resolved
  on_subtasks P = go (id_waves iter subtasks) partition
    where
      go :
          (o : Outcome String)
          → OnWaves (λ ws. (a : String) → count a (flatten ws) ≡ count a (keys (by_id subtasks))) o
          → OnWaves P o
          → OnWaves (λ ws. P (ids_of ws)) (resolved (by_id subtasks) o)
      go (waves ws) all_there h =
          subst P
            (sym (
              resolve_all-id (by_id subtasks) ws (by_id-IsNamed subtasks) (All-known ws all_there)))
            h
      go (cycle ids) all_there h = tt
      go unfinished all_there h = h

  -- In whatever order sets are walked, `_build_waves` ends, and where it returns waves they hold every
  -- id of the plan exactly once, and nothing else.
  pub build_waves-partition :
      OnWaves
        (λ ws.
          (a : String)
          → count a (flatten (ids_of ws))
            ≡ (if contains (map (λ s. s.id) subtasks) a then 1 else 0))
        (build_waves iter subtasks)
  build_waves-partition =
      on_subtasks
        (λ ws.
          (a : String)
          → count a (flatten ws) ≡ (if contains (map (λ s. s.id) subtasks) a then 1 else 0))
        (OnWaves-weaken (id_waves iter subtasks) (λ ws h a. h a ∙ count-keys-by_id a subtasks)
          partition)

  -- In whatever order sets are walked, every dependency of a subtask, of those that are kept, stands in
  -- a wave before its own.
  pub build_waves-IsOrdered :
      OnWaves (λ ws. IsOrdered (deps_of subtasks) [] (ids_of ws)) (build_waves iter subtasks)
  build_waves-IsOrdered =
      on_subtasks _
        (rounds-IsOrdered iter order (deps_of subtasks) _ [] (keys (by_id subtasks)) (omega arith))

  -- In whatever order sets are walked, no subtask waits longer than it has to: from the second wave on
  -- it depends on one of the wave right before its own.
  pub build_waves-IsTight :
      OnWaves (λ ws. Later (deps_of subtasks) (ids_of ws)) (build_waves iter subtasks)
  build_waves-IsTight =
      on_subtasks _
        (rounds-IsTight iter order (deps_of subtasks) _ [] (keys (by_id subtasks)) (omega arith))

  -- In whatever order sets are walked, when an error is raised its message names at least one id, and
  -- each id that it names depends on one of them.
  pub build_waves-IsStuck : OnCycle (IsStuck (deps_of subtasks)) (build_waves iter subtasks)
  unfolding build_waves resolved contains
  build_waves-IsStuck = go (id_waves iter subtasks) (
      rounds-IsStuck iter order (deps_of subtasks) _ [] (keys (by_id subtasks)) (omega arith)
        (λ sid d m n. deps_of-known subtasks sid d n))
    where
      go :
          (o : Outcome String)
          → OnCycle (IsStuck (deps_of subtasks)) o
          → OnCycle (IsStuck (deps_of subtasks)) (resolved (by_id subtasks) o)
      go (waves ws) h = tt
      go (cycle ids) h = h
      go unfinished h = tt

  -- In whatever order sets are walked, a plan whose ids can be numbered so that each has a higher number
  -- than its dependencies gets its waves.
  pub build_waves_acyclic :
      (rank : String → ℕ)
      → ((sid d : String) → contains (deps_of subtasks sid) d ≡ true → rank d < rank sid)
      → (ws : List (List Subtask)) × (build_waves iter subtasks ≡ waves ws)
  build_waves_acyclic rank grows =
      go (build_waves iter subtasks) build_waves-IsOrdered build_waves-IsStuck
    where
      go :
          (o : Outcome Subtask)
          → OnWaves (λ ws. IsOrdered (deps_of subtasks) [] (ids_of ws)) o
          → OnCycle (IsStuck (deps_of subtasks)) o
          → (ws : List (List Subtask)) × (o ≡ waves ws)
      go (waves ws) ordered stuck = (ws, refl)
      go (cycle ids) ordered stuck = absurd (not-IsStuck (deps_of subtasks) rank grows ids stuck)
      go unfinished ordered stuck = absurd ordered
