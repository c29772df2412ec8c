-- ===== src/LlmClient.antt =====
-- `LLMClient.decompose_goal` of src/core/llm_client.py: what is taken out of the model's answer. The
-- model's answer, `json.loads` and `str.strip` are parameters; the prompt only reaches the model.
pub mod Ids
mod Samples
use agent_server_platform.Base.{
  ℕ, zero, suc, ◌+◌, String, Bool, true, false, not, ◌&&◌, Option, none, some, List, [], ◌∷◌, ◌==◌,
  string_eq, if◌then◌else◌, contains, select, after_first, before_first,
}
use agent_server_platform.Scheduling.Subtasks.{
  Deps, listed, RawSubtask, auto_id, listed_deps, proposed_id,
}

-- A task of the answer. Where a null differs from a key that is missing, a null is `some none`; an id,
-- a role and a prompt are texts.
pub record LlmTask : Type 0 where
  pub goal : Option (Option String)
  pub id : Option String
  pub depends_on : Option Deps
  pub role : Option String
  pub system_prompt : Option String
  pub priority : Option (Option ℕ)
  pub timeout_seconds : Option (Option ℕ)

-- `context.get("priority", 0)` and `context.get("timeout_seconds", 3600)`
pub record Defaults : Type 0 where
  pub priority : Option ℕ
  pub timeout_seconds : Option ℕ

-- The text that is parsed, before it is stripped.
unfoldable pub json_text : String → String
unfolding after_first before_first
json_text response = elim (after_first "```json" response) [
  | some rest ↦ before_first "```" rest
  | none ↦ elim (after_first "```" response) [
    | some rest ↦ before_first "```" rest
    | none ↦ response
  ]
]

-- The id that the first pass notes for a task.
unfoldable pub first_id : ℕ → List String → LlmTask → String
unfolding proposed_id
first_id idx valid_ids t =
    let tid = proposed_id idx t.id in if contains valid_ids tid then auto_id (idx + 1) else tid

-- The first pass, from index `idx` on: the set of valid ids.
unfoldable pub collect_ids : ℕ → List String → List LlmTask → List String
unfolding first_id
collect_ids idx valid_ids [] = valid_ids
collect_ids idx valid_ids (t ∷ ts) = elim t.goal [
  | none ↦ collect_ids (idx + 1) valid_ids ts
  | some _ ↦ collect_ids (idx + 1) (first_id idx valid_ids t ∷ valid_ids) ts
]

-- The id of a task in the second pass.
unfoldable pub second_id : ℕ → List String → LlmTask → String
unfolding proposed_id
second_id idx valid_ids t =
    let tid = proposed_id idx t.id in if contains valid_ids tid then tid else auto_id (idx + 1)

-- `valid_ids` after it: the id, added where it was not there.
abbrev pub with_valid : String → List String → List String
with_valid tid valid_ids = if contains valid_ids tid then valid_ids else tid ∷ valid_ids

-- `d.get(key, default)`
abbrev pub or_default {ℓ} : {A : Type ℓ} → Option A → A → A
or_default none d = d
or_default (some a) d = a

module _ (defaults : Defaults) where
  abbrev pub validated : String → List String → Option String → LlmTask → RawSubtask
  validated tid valid_ids goal t = record {
    id = some tid;
    depends_on =
        some (
          listed (select (λ d. contains valid_ids d && not (d == tid)) (listed_deps t.depends_on)));
    goal = goal;
    role = t.role;
    system_prompt = t.system_prompt;
    priority = or_default t.priority defaults.priority;
    timeout_seconds = or_default t.timeout_seconds defaults.timeout_seconds;
  }

  -- The second pass.
  unfoldable pub validate_from : ℕ → List String → List LlmTask → List RawSubtask
  unfolding second_id
  validate_from idx valid_ids [] = []
  validate_from idx valid_ids (t ∷ ts) = elim t.goal [
    | none ↦ validate_from (idx + 1) valid_ids ts
    | some goal ↦
        let tid = second_id idx valid_ids t in
        validated tid (with_valid tid valid_ids) goal t
        ∷ validate_from (idx + 1) (with_valid tid valid_ids) ts
  ]

  -- Both passes over the list of tasks.
  unfoldable pub validate_tasks : List LlmTask → List RawSubtask
  unfolding collect_ids validate_from
  validate_tasks tasks = validate_from 0 (collect_ids 0 [] tasks) tasks

  -- An empty list of subtasks is no answer.
  abbrev pub non_empty : List RawSubtask → Option (List RawSubtask)
  non_empty [] = none
  non_empty (s ∷ ss) = some (s ∷ ss)

  -- `loads` has the list under "subtasks", or none where `json.loads` or a look at its value raises;
  -- `response` is what `chat` returns.
  unfoldable pub decompose_goal :
      (String → Option (List LlmTask))
      → (String → String)
      → Option String
      → Option (List RawSubtask)
  unfolding json_text validate_tasks
  decompose_goal loads strip none = none
  decompose_goal loads strip (some response) =
      let tasks = loads (strip (json_text response)) in
      if response == ""
      then none
      else elim tasks [ none ↦ none | some ts ↦ non_empty (validate_tasks ts) ]
