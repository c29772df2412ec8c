-- ===== src/FlowDefinition.antt =====
-- src/scenarios/flow_definition.py: the steps of a flow, their order by depth-first search, and the
-- steps that are ready. `FlowDefinition.steps` is a dict; a configuration is named by its JSON text.
pub mod Good
pub mod Visits
pub mod Order
pub mod Execution
mod Samples
use agent_server_platform.Base.{
  ℕ, zero, suc, String, Bool, true, false, not, ◌&&◌, Option, none, some, List, [], ◌∷◌, ◌++◌, ◌==◌,
  string_eq, contains, select, all, length,
}
use agent_server_platform.Base.Dict.{Dict, lookup, insert, values}

pub record FlowStep : Type 0 where
  pub step_id : String
  pub agent_type : String
  pub goal : String
  pub depends_on : List String
  pub config : String

pub record FlowDefinition : Type 0 where
  pub flow_id : String
  pub name : String
  pub description : String
  pub steps : Dict String FlowStep

-- `FlowDefinition.__init__`
abbrev pub new_flow : String → String → String → FlowDefinition
new_flow flow_id name description = record {
  flow_id = flow_id;
  name = name;
  description = description;
  steps = [];
}

unfoldable pub add_step : FlowStep → FlowDefinition → FlowDefinition
unfolding insert
add_step step flow = record flow { steps = insert step.step_id step flow.steps }

-- What the closure `visit` changes.
pub record Visit : Type 0 where
  pub visited : List String
  pub in_progress : List String
  pub result : List FlowStep

-- `circular` is the `ValueError` at a step; `unfinished` stands for a search without enough fuel.
pub data Outcome : Type 0 where
  ok : Visit → Outcome
  circular : String → Outcome
  unfinished : Outcome

abbrev pub bind : Outcome → (Visit → Outcome) → Outcome
bind (ok st) f = f st
bind (circular step_id) f = circular step_id
bind unfinished f = unfinished

-- `in_progress.add(step.step_id)`
abbrev pub enter : FlowStep → Visit → Visit
enter step st = record st { in_progress = step.step_id ∷ st.in_progress }

-- The last three lines of `visit`.
abbrev pub leave : FlowStep → Visit → Visit
leave step st = record {
  visited = step.step_id ∷ st.visited;
  in_progress = select (λ sid. not (sid == step.step_id)) st.in_progress;
  result = st.result ++ step ∷ [];
}

module _ (steps : Dict String FlowStep) where
  -- `for dep_id in step.depends_on`: an id that is not of the flow is passed over.
  unfoldable pub visit_deps : (FlowStep → Visit → Outcome) → List String → Visit → Outcome
  unfolding lookup
  visit_deps visit_one [] st = ok st
  visit_deps visit_one (d ∷ ds) st = elim (lookup d steps) [
    | none ↦ visit_deps visit_one ds st
    | some dep ↦ bind (visit_one dep st) (visit_deps visit_one ds)
  ]

  unfoldable pub visit : ℕ → FlowStep → Visit → Outcome
  unfolding visit_deps contains
  visit zero step st = unfinished
  visit (suc fuel) step st = elim (contains st.visited step.step_id) [
    | true ↦ ok st
    | false ↦ elim (contains st.in_progress step.step_id) [
      | true ↦ circular step.step_id
      | false ↦
          bind (visit_deps (visit fuel) step.depends_on (enter step st))
            (λ after. ok (leave step after))
    ]
  ]

  -- `for step in self.steps.values(): visit(step)`
  unfoldable pub visit_all : ℕ → List FlowStep → Visit → Outcome
  unfolding visit
  visit_all fuel [] st = ok st
  visit_all fuel (step ∷ more) st = bind (visit fuel step st) (visit_all fuel more)

-- `get_execution_order`: one level more than there are steps is enough.
unfoldable pub get_execution_order : FlowDefinition → Outcome
unfolding visit_all values
get_execution_order flow =
    visit_all flow.steps (suc (length flow.steps)) (values flow.steps)
      (record { visited = []; in_progress = []; result = [] })

-- The body of the loop of `get_ready_steps` as a test.
abbrev pub is_ready : List String → FlowStep → Bool
is_ready completed_step_ids step =
    not (contains completed_step_ids step.step_id)
    && all (λ dep. contains completed_step_ids dep) step.depends_on

unfoldable pub get_ready_steps : List String → FlowDefinition → List FlowStep
unfolding values
get_ready_steps completed_step_ids flow = select (is_ready completed_step_ids) (values flow.steps)
