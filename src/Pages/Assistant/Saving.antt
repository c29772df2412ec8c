-- ===== src/Pages/Assistant/Saving.antt =====
-- What a saved draft leaves in the table of scenarios.
use agent_server_platform.Base.{
  ℕ, String, ◌≡◌, refl, sym, ap, ◌∙◌, subst, Option, none, some, arith, ◌==◌, string_eq,
  Option-cases, Bool-cases, inl, inr,
}
use agent_server_platform.StateMachine.{ScenarioState, scenario_state_eq}
use agent_server_platform.Database.Table.Keyed.{IsKeyed}
use agent_server_platform.Database.Table.Added.{find_by_key-added}
use agent_server_platform.Database.Scenarios.{Scenario, scenario_model, find_by_scenario_id}
use agent_server_platform.Platform.{Platform}
use agent_server_platform.ScenarioManager.{Ids, create_scenario, update_scenario, new_scenario}
use agent_server_platform.Pages.Dashboard.Form.{text_or}
use agent_server_platform.Pages.Assistant.{
  Spec, validate_scene_spec, type_of, name_of, config_of, save_over, save_new, save_at, save_scene,
  load_scenario_spec,
}
use agent_server_platform.Pages.Assistant.Updates.{
  saved, edit_of, update_scenario_answer, load-updated,
}

module _ (now : ℕ) (ids : Ids) (spec : Spec) (p : Platform) where
  load-created :
      find_by_scenario_id ids.scenario_id p.scenarios ≡ none
      → load_scenario_spec ids.scenario_id (save_new now ids spec p).0.scenarios ≡ some (saved spec)
  unfolding load_scenario_spec create_scenario
  load-created fresh =
      let row = new_scenario now ids (record {
        scenario_type = type_of spec;
        name = name_of spec;
        description = text_or spec.description "";
        config = some (config_of spec);
        created_by = none;
      }) in
      rw
        (
          find_by_key-added scenario_model ids.scenario_id p.scenarios row fresh refl,
          load_scenario_spec,
        )
        refl

  -- What the answer of a save means, whichever way it takes.
  abbrev Loads : Platform × (Option String × String) → Type 0
  Loads answer =
      (k : String)
      → answer.1.0 ≡ some k
      → load_scenario_spec k answer.0.scenarios ≡ some (saved spec)

  save_new-Loads :
      find_by_scenario_id ids.scenario_id p.scenarios ≡ none → Loads (save_new now ids spec p)
  unfolding create_scenario
  save_new-Loads fresh k e =
      let same : ids.scenario_id ≡ k = cc e in
      subst (λ j. load_scenario_spec j (save_new now ids spec p).0.scenarios ≡ some (saved spec))
        same (load-created fresh)

  save_over-Loads :
      (j : String) (s : Scenario)
      → IsKeyed scenario_model p.scenarios
      → find_by_scenario_id j p.scenarios ≡ some s
      → Loads (save_over now spec j s p)
  save_over-Loads j s keyed found k e = elim (Bool-cases (s.state == ScenarioState.initializing)) [
    | inl may ↦
        let same : j ≡ k = ground (arith, e, may) in
        rw may (
          subst
            (λ i.
              load_scenario_spec i (update_scenario now j (edit_of spec) p).0.scenarios
              ≡ some (saved spec))
            same (load-updated now j spec p keyed s found))
    | inr never ↦ absurd (ground (arith, e, never))
  ]

  save_at-Loads :
      (o : Option String)
      → IsKeyed scenario_model p.scenarios
      → find_by_scenario_id ids.scenario_id p.scenarios ≡ none
      → Loads (save_at now ids spec o p)
  save_at-Loads none keyed fresh k e = save_new-Loads fresh k e
  save_at-Loads (some j) keyed fresh k e = elim (Bool-cases (j == "")) [
    | inl empty ↦ rw empty (save_new-Loads fresh k (rw empty at e))
    | inr named ↦ elim (Option-cases (find_by_scenario_id j p.scenarios)) [
      | inl absent ↦ absurd (ground (arith, e, named, absent))
      | inr (s, found) ↦
          let over : save_at now ids spec (some j) p ≡ save_over now spec j s p =
            rw (named, found) refl in
          subst (λ answer. load_scenario_spec k answer.0.scenarios ≡ some (saved spec)) (sym over)
            (save_over-Loads j s keyed found k (ap (λ answer. answer.1.0) (sym over) ∙ e))
    ]
  ]

  -- On a table with unique keys, where a new scenario gets a new id: if `save_scene` answers with an id, over
  -- a scenario or for a new one, then `load_scenario_spec` of that id gives the draft back, with an
  -- empty description and an empty configuration where it had none.
  pub save_scene-load :
      (scenario_id : Option String) (k : String)
      → IsKeyed scenario_model p.scenarios
      → find_by_scenario_id ids.scenario_id p.scenarios ≡ none
      → (save_scene now ids spec scenario_id p).1.0 ≡ some k
      → load_scenario_spec k (save_scene now ids spec scenario_id p).0.scenarios ≡ some (saved spec)
  unfolding save_scene
  save_scene-load scenario_id k keyed fresh e = elim (Bool-cases (validate_scene_spec spec).0) [
    | inl good ↦ rw good (save_at-Loads scenario_id keyed fresh k (rw good at e))
    | inr bad ↦ absurd (ground (arith, e, bad))
  ]

  save_over-refused :
      (j : String) (s : Scenario)
      → IsKeyed scenario_model p.scenarios
      → find_by_scenario_id j p.scenarios ≡ some s
      → (save_over now spec j s p).1.0 ≡ none
      → (save_over now spec j s p).0 ≡ p
  save_over-refused j s keyed found e = elim (Bool-cases (s.state == ScenarioState.initializing)) [
    | inl may ↦ absurd (ground (arith, e, may, update_scenario_answer now j spec p keyed s found))
    | inr never ↦ rw never refl
  ]

  save_at-refused :
      (o : Option String)
      → IsKeyed scenario_model p.scenarios
      → (save_at now ids spec o p).1.0 ≡ none
      → (save_at now ids spec o p).0 ≡ p
  save_at-refused none keyed e = cc e
  save_at-refused (some j) keyed e = elim (Bool-cases (j == "")) [
    | inl empty ↦ absurd (ground (arith, e, empty))
    | inr named ↦ elim (Option-cases (find_by_scenario_id j p.scenarios)) [
      | inl absent ↦ rw (named, absent) refl
      | inr (s, found) ↦
          let over : save_at now ids spec (some j) p ≡ save_over now spec j s p =
            rw (named, found) refl in
          ap (λ answer. answer.0) over
          ∙ save_over-refused j s keyed found (ap (λ answer. answer.1.0) (sym over) ∙ e)
    ]
  ]

  -- On a table with unique keys a `save_scene` that answers without an id has changed nothing.
  pub save_scene-refused :
      (scenario_id : Option String)
      → IsKeyed scenario_model p.scenarios
      → (save_scene now ids spec scenario_id p).1.0 ≡ none
      → (save_scene now ids spec scenario_id p).0 ≡ p
  unfolding save_scene
  save_scene-refused scenario_id keyed e = elim (Bool-cases (validate_scene_spec spec).0) [
    | inl good ↦ rw good (save_at-refused scenario_id keyed (rw good at e))
    | inr bad ↦ rw bad refl
  ]
