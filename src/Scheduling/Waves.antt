-- ===== src/Scheduling/Waves.antt =====
-- `SchedulingAgent._build_waves`. A Python set is a list without order: `iter` is the order in which
-- the interpreter walks a set, and the theorems hold for every such order.
pub mod Ids
pub mod Loop
pub mod Order
pub mod Cycle
pub mod Plan
mod Samples
use agent_server_platform.Base.{
  ℕ, zero, suc, String, Bool, true, false, not, ◌&&◌, Option, none, some, List, [], ◌∷◌, ◌++◌, ◌==◌,
  string_eq, if◌then◌else◌, contains, select, all, length,
}
use agent_server_platform.Base.Dict.{Dict, lookup, insert, keys}
use agent_server_platform.Scheduling.Subtasks.{Subtask}

-- `unfinished` stands for a loop that ran out of the rounds given; `ValueError` is `cycle`, with
-- the ids that its message lists in sorted order.
pub data Outcome (A : Type 0) : Type 0 where
  waves : List (List A) → Outcome A
  cycle : List String → Outcome A
  unfinished : Outcome A

unfoldable pub prepend : {A : Type 0} → List A → Outcome A → Outcome A
prepend w (waves ws) = waves (w ∷ ws)
prepend w (cycle ids) = cycle ids
prepend w unfinished = unfinished

-- `all(d in placed for d in deps[sid])`
abbrev pub is_ready : (String → List String) → List String → String → Bool
is_ready deps placed sid = all (λ d. contains placed d) (deps sid)

-- `a -= set(b)`
abbrev pub minus : List String → List String → List String
minus a b = select (λ sid. not (contains b sid)) a

module _ (iter : List String → List String) (deps : String → List String) where
  -- The `while remaining` loop, on ids.
  unfoldable pub rounds : ℕ → List String → List String → Outcome String
  rounds fuel placed [] = waves []
  rounds zero placed (sid ∷ sids) = unfinished
  rounds (suc fuel) placed (sid ∷ sids) =
      let remaining = sid ∷ sids in
      let ready = select (is_ready deps placed) (iter remaining) in
      elim ready [
        | [] ↦ cycle remaining
        | first ∷ more ↦
            prepend (first ∷ more)
              (rounds fuel (placed ++ first ∷ more) (minus remaining (first ∷ more)))
      ]

-- `{s["id"]: s for s in subtasks}`: of two subtasks with one id the later stays.
unfoldable pub by_id_from : Dict String Subtask → List Subtask → Dict String Subtask
by_id_from d [] = d
by_id_from d (s ∷ subs) = by_id_from (insert s.id s d) subs

unfoldable pub by_id : List Subtask → Dict String Subtask
unfolding by_id_from
by_id = by_id_from []

abbrev pub is_known : Dict String Subtask → String → Bool
is_known d sid = elim (lookup sid d) [ none ↦ false | some _ ↦ true ]

-- `[d for d in s["depends_on"] if d in by_id and d != s["id"]]`
unfoldable pub sanitized : Dict String Subtask → Subtask → List String
sanitized known s = select (λ d. is_known known d && not (d == s.id)) s.depends_on

-- `deps[sid]`: the dict comprehension keeps the later of two subtasks too.
unfoldable pub deps_of : List Subtask → String → List String
unfolding sanitized
deps_of subtasks sid = elim (lookup sid (by_id subtasks)) [
  | none ↦ []
  | some s ↦ sanitized (by_id subtasks) s
]

-- `[by_id[sid] for sid in ready]`; the loop only meets ids of the dict.
unfoldable pub resolve : Dict String Subtask → List String → List Subtask
resolve known [] = []
resolve known (sid ∷ sids) =
    let rest = resolve known sids in elim (lookup sid known) [ none ↦ rest | some s ↦ s ∷ rest ]

unfoldable pub resolve_all : Dict String Subtask → List (List String) → List (List Subtask)
unfolding resolve
resolve_all known [] = []
resolve_all known (ids ∷ more) = resolve known ids ∷ resolve_all known more

unfoldable pub resolved : Dict String Subtask → Outcome String → Outcome Subtask
unfolding resolve_all
resolved known (waves ws) = waves (resolve_all known ws)
resolved known (cycle ids) = cycle ids
resolved known unfinished = unfinished

-- `_build_waves`: as many rounds as there are ids are enough.
unfoldable pub build_waves : (List String → List String) → List Subtask → Outcome Subtask
build_waves iter subtasks =
    let ids = keys (by_id subtasks) in
    resolved (by_id subtasks) (rounds iter (deps_of subtasks) (length ids) [] ids)
