-- ===== src/Scheduling/Subtasks.antt =====
-- The subtask dicts that `SchedulingAgent` passes around, and `_normalize_subtasks`.
pub mod Unique
mod Samples
use agent_server_platform.Base.{
  ℕ, zero, suc, ◌+◌, ◌/◌, ◌%◌, String, ◌<>◌, Bool, true, false, Option, none, some, List, [], ◌∷◌,
  ◌==◌, string_eq, if◌then◌else◌, contains, ltb,
}

-- The value of a `depends_on` key: a list of ids, or something that is no list.
pub data Deps : Type 0 where
  listed : List String → Deps
  other : Deps

-- A subtask as the decomposition returns it; a key that is missing or None is `none`.
pub record RawSubtask : Type 0 where
  pub id : Option String
  pub depends_on : Option Deps
  pub goal : Option String
  pub role : Option String
  pub system_prompt : Option String
  pub priority : Option ℕ
  pub timeout_seconds : Option ℕ

-- The same with the two keys that `_normalize_subtasks` fills in.
pub record Subtask : Type 0 where
  pub id : String
  pub depends_on : List String
  pub goal : Option String
  pub role : Option String
  pub system_prompt : Option String
  pub priority : Option ℕ
  pub timeout_seconds : Option ℕ

digit : ℕ → String
digit zero = "0"
digit (suc zero) = "1"
digit (suc (suc zero)) = "2"
digit (suc (suc (suc zero))) = "3"
digit (suc (suc (suc (suc zero)))) = "4"
digit (suc (suc (suc (suc (suc zero))))) = "5"
digit (suc (suc (suc (suc (suc (suc zero)))))) = "6"
digit (suc (suc (suc (suc (suc (suc (suc zero))))))) = "7"
digit (suc (suc (suc (suc (suc (suc (suc (suc zero)))))))) = "8"
digit (suc (suc (suc (suc (suc (suc (suc (suc (suc n))))))))) = "9"

-- The decimal text of a number below 10 ^ fuel.
decimal : ℕ → ℕ → String
decimal zero n = ""
decimal (suc fuel) n =
    let front = decimal fuel (n / 10) in if ltb n 10 then digit n else front <> digit (n % 10)

-- `str(n)`
unfoldable pub decimal_text : ℕ → String
unfolding decimal digit
decimal_text n = decimal (suc n) n

-- `f"t{n}"`
unfoldable pub auto_id : ℕ → String
unfolding decimal_text
auto_id n = "t" <> decimal_text n

-- `s.get("depends_on") or []`, replaced by [] where it is no list.
abbrev pub listed_deps : Option Deps → List String
listed_deps (some (listed ids)) = ids
listed_deps _ = []

-- `s.get("id") or f"t{idx + 1}"`: a missing and an empty id are both replaced.
unfoldable pub proposed_id : ℕ → Option String → String
proposed_id idx none = auto_id (idx + 1)
proposed_id idx (some id) = if id == "" then auto_id (idx + 1) else id

-- The id that the loop settles on, with the ids seen before.
unfoldable pub chosen_id : ℕ → List String → RawSubtask → String
unfolding proposed_id
chosen_id idx seen sub =
    let tid = proposed_id idx sub.id in if contains seen tid then auto_id (idx + 1) else tid

abbrev with_id : String → RawSubtask → Subtask
with_id id sub = record {
  id = id;
  depends_on = listed_deps sub.depends_on;
  goal = sub.goal;
  role = sub.role;
  system_prompt = sub.system_prompt;
  priority = sub.priority;
  timeout_seconds = sub.timeout_seconds;
}

-- The `for` loop, from index `idx` on.
unfoldable pub normalize_from : ℕ → List String → List RawSubtask → List Subtask
unfolding chosen_id
normalize_from idx seen [] = []
normalize_from idx seen (sub ∷ subs) =
    let tid = chosen_id idx seen sub in with_id tid sub ∷ normalize_from (idx + 1) (tid ∷ seen) subs

-- `_normalize_subtasks`
unfoldable pub normalize_subtasks : List RawSubtask → List Subtask
unfolding normalize_from
normalize_subtasks = normalize_from 0 []
