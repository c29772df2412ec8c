-- ===== src/Pages/Assistant/Updates.antt =====
-- What `update_scenario` with every field given leaves in the table.
use agent_server_platform.Base.{
  ℕ, String, ◌≡◌, refl, sym, ap, ◌∙◌, true, some, map, arith, string_eq, Option-cases, inl, inr,
}
use agent_server_platform.StateMachine.{scenario_state_eq}
use agent_server_platform.Database.Tasks.Update.{or_stored_self}
use agent_server_platform.Database.Table.{modify}
use agent_server_platform.Database.Table.Keyed.{
  IsKeyed, find, at, is_found, modify-at, find-at, map-IsKeyed, find_by_key-find,
}
use agent_server_platform.Database.Scenarios.{Scenario, scenario_model, find_by_scenario_id}
use agent_server_platform.Platform.{Platform}
use agent_server_platform.ScenarioManager.{Edit, edited, update_scenario}
use agent_server_platform.Pages.Dashboard.Form.{text_or}
use agent_server_platform.Pages.Assistant.{
  Spec, object, type_of, name_of, config_of, load_scenario_spec,
}

-- The draft with what validation and saving fill in.
abbrev pub saved : Spec → Spec
saved spec = record {
  scenario_type = some (type_of spec);
  name = some (name_of spec);
  description = some (text_or spec.description "");
  config = some (object (config_of spec));
}

abbrev pub edit_of : Spec → Edit
edit_of spec = record {
  scenario_type = some (type_of spec);
  name = some (name_of spec);
  description = some (text_or spec.description "");
  config = some (config_of spec);
}

-- An edit that gives every field, on a table with unique keys.
module _ (now : ℕ) (k : String) (spec : Spec) (p : Platform)
    (keyed : IsKeyed scenario_model p.scenarios) where
  update_scenario-modify :
      (update_scenario now k (edit_of spec) p).0.scenarios
      ≡ (modify scenario_model now k (edited now (edit_of spec)) p.scenarios).0
  unfolding update_scenario modify
  update_scenario-modify = elim (Option-cases (find_by_scenario_id k p.scenarios)) [
    | inl e ↦ rw (e, update_scenario, modify) refl
    | inr (s, e) ↦ rw (e, update_scenario, modify) refl
  ]

  pub update_scenario_answer :
      (s : Scenario)
      → find_by_scenario_id k p.scenarios ≡ some s
      → (update_scenario now k (edit_of spec) p).1 ≡ true
  unfolding update_scenario modify
  update_scenario_answer s e =
      flag
      ∙ ap (λ w. w.1)
          (modify-at scenario_model now k (edited now (edit_of spec)) (edited now (edit_of spec))
            p.scenarios keyed (λ t. refl) (λ t. refl) (λ t. simp or_stored_self))
      ∙ ap (is_found scenario_model) (sym (find_by_key-find scenario_model k p.scenarios keyed) ∙ e)
    where
      flag :
          (update_scenario now k (edit_of spec) p).1
          ≡ (modify scenario_model now k (edited now (edit_of spec)) p.scenarios).1
      flag = rw (e, update_scenario, modify) refl

  pub update_scenario-at :
      (update_scenario now k (edit_of spec) p).0.scenarios
      ≡ map (at scenario_model k (edited now (edit_of spec))) p.scenarios
  update_scenario-at =
      update_scenario-modify
      ∙ ap (λ w. w.0)
          (modify-at scenario_model now k (edited now (edit_of spec)) (edited now (edit_of spec))
            p.scenarios keyed (λ t. refl) (λ t. refl) (λ t. simp or_stored_self))

  found_after :
      (s : Scenario)
      → find_by_scenario_id k p.scenarios ≡ some s
      → find_by_scenario_id k (update_scenario now k (edit_of spec) p).0.scenarios
        ≡ some (edited now (edit_of spec) s)
  found_after s e =
      let change = edited now (edit_of spec) in
      let rows = map (at scenario_model k change) p.scenarios in
      let kept =
        map-IsKeyed scenario_model (at scenario_model k change) p.scenarios (λ t. ground arith)
          keyed in
      let before : find scenario_model k p.scenarios ≡ some s =
        sym (find_by_key-find scenario_model k p.scenarios keyed) ∙ e in
      ap (find_by_scenario_id k) update_scenario-at
      ∙ find_by_key-find scenario_model k rows kept
      ∙ find-at scenario_model change k k p.scenarios (λ t. (refl, refl))
      ∙ ground (arith, before)

  -- `update_scenario` says that it found the row.
  pub load-updated :
      (s : Scenario)
      → find_by_scenario_id k p.scenarios ≡ some s
      → load_scenario_spec k (update_scenario now k (edit_of spec) p).0.scenarios
        ≡ some (saved spec)
  unfolding load_scenario_spec
  load-updated s e = rw (found_after s e, load_scenario_spec) refl
