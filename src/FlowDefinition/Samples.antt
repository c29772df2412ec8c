-- ===== src/FlowDefinition/Samples.antt =====
-- A flow of three steps with a reference to an unknown one, a circle, and the theorems at them.
use agent_server_platform.Base.{String, ◌≡◌, refl, List, [], ◌∷◌, string_eq, contains, select, all}
use agent_server_platform.Base.Dict.{insert, lookup, values}
use agent_server_platform.FlowDefinition.{
  FlowStep, FlowDefinition, new_flow, add_step, Visit, ok, circular, visit_deps, visit, visit_all,
  get_execution_order, get_ready_steps,
}
use agent_server_platform.FlowDefinition.Good.{IsFlow, add_step-IsFlow, IsGood}
use agent_server_platform.FlowDefinition.Execution.{IsExecutionOrder, get_execution_order-IsGood}

abbrev step : String → List String → FlowStep
step step_id depends_on = record {
  step_id = step_id;
  agent_type = "execution";
  goal = "g";
  depends_on = depends_on;
  config = "{}";
}

abbrev report : FlowStep
report = step "report" ("review" ∷ "ghost" ∷ [])

abbrev publish : FlowStep
publish = step "publish" ("report" ∷ "review" ∷ [])

abbrev review : FlowStep
review = step "review" []

abbrev sample : FlowDefinition
sample = add_step review (add_step report (add_step publish (new_flow "f" "n" "")))

abbrev ordered : Visit
ordered = record {
  visited = "publish" ∷ "report" ∷ "review" ∷ [];
  in_progress = [];
  result = review ∷ report ∷ publish ∷ [];
}

sample-ordered : get_execution_order sample ≡ ok ordered
unfolding get_execution_order visit_all visit visit_deps add_step insert lookup values contains
    select string_eq
sample-ordered = refl

-- The step with the unknown dependency has a place in the order, and is never ready.
report_waits : get_ready_steps ("review" ∷ []) sample ≡ []
unfolding get_ready_steps add_step insert values contains all select string_eq
report_waits = refl

circle_found :
    get_execution_order
      (add_step (step "a" ("b" ∷ [])) (add_step (step "b" ("a" ∷ [])) (new_flow "f" "n" "")))
    ≡ circular "b"
unfolding get_execution_order visit_all visit visit_deps add_step insert lookup values contains
    select string_eq
circle_found = refl

sample-IsFlow : IsFlow sample.steps
sample-IsFlow = add_step-IsFlow review (add_step report (add_step publish (new_flow "f" "n" ""))) (
    add_step-IsFlow report (add_step publish (new_flow "f" "n" ""))
      (add_step-IsFlow publish (new_flow "f" "n" "") tt))

get_execution_order-IsGood_example :
    IsGood sample.steps (IsExecutionOrder sample.steps) (get_execution_order sample)
get_execution_order-IsGood_example = get_execution_order-IsGood sample sample-IsFlow
