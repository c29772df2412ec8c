-- ===== src/Pages/Dashboard/Form/Clone.antt =====
-- A scenario that the form has created fills the form again.
use agent_server_platform.Base.{
  ℕ, zero, suc, String, ◌<>◌, ◌≡◌, refl, ap, ◌∙◌, Bool, true, not, ◌&&◌, Option, none, some, List,
  [], ◌∷◌, map, arith, ◌==◌, string_eq, nat_eq, if◌then◌else◌, Bool-cases, inl, inr, contains,
  length, take, select,
}
use agent_server_platform.Database.Table.Added.{find_by_key-added}
use agent_server_platform.Database.Scenarios.{Config, Scenario, scenario_model, find_by_scenario_id}
use agent_server_platform.Platform.{Platform}
use agent_server_platform.ScenarioManager as Manager
use agent_server_platform.ScenarioManager.{Ids, Request, new_scenario}
use agent_server_platform.Pages.Dashboard.{scenario_types}
use agent_server_platform.Pages.Dashboard.Form.{
  RoleInput, blank, Form, or_default, chosen, timeout_or, default_role, entry_of, entries,
  shown_count, roles_of, built, build_config, create_scenario, text_or, role_inputs, clone_count,
  clone_scenario, with_inputs, filled, show_clone_view,
}

abbrev pub is_complete : RoleInput → Bool
is_complete r = not (r.name == "") && not (r.role == "")

-- The groups of a form that name an agent and its role.
abbrev pub complete_roles : Form → List RoleInput
complete_roles form = select is_complete (take (shown_count form.execution_roles_count) form.roles)

abbrev pub padded : ℕ → List RoleInput → List RoleInput
padded zero rs = []
padded (suc n) [] = blank ∷ padded n []
padded (suc n) (r ∷ rs) = r ∷ padded n rs

abbrev pub timeout_of : Form → ℕ
timeout_of form =
    if form.scenario_type == "simple_qa"
    then timeout_or form.qa_timeout 60
    else timeout_or form.code_timeout 300

-- The form that comes back.
abbrev pub cloned : Form → Form
cloned form = record {
  scenario_type = form.scenario_type;
  scenario_name = form.scenario_name <> " (克隆)";
  scenario_desc = form.scenario_desc;
  scheduling_agent_role = or_default form.scheduling_agent_role default_role;
  execution_roles_count = clone_count (length (complete_roles form));
  roles = padded 10 (complete_roles form);
  qa_question = if form.scenario_type == "simple_qa" then form.qa_question else "";
  qa_timeout = some (timeout_of form);
  code_script = if form.scenario_type == "simple_qa" then "" else form.code_script;
  code_code = if form.scenario_type == "simple_qa" then "" else form.code_code;
  code_timeout = some (timeout_of form);
}

entries-map : (rs : List RoleInput) → entries rs ≡ map entry_of (select is_complete rs)
unfolding entries select
entries-map [] = refl
entries-map (r ∷ rs) = ground (arith, entries-map rs)

cloned_entry : (s : String) → text_or (chosen s) "" ≡ s
cloned_entry s = ground arith

role_inputs-map :
    (n : ℕ) (rs : List RoleInput) → role_inputs n (map entry_of rs) ≡ some (padded n rs)
unfolding role_inputs
role_inputs-map zero rs = refl
role_inputs-map (suc n) [] = rw (role_inputs-map n []) refl
role_inputs-map (suc n) (r ∷ rs) = rw (role_inputs-map n rs, cloned_entry r.server) refl

length-entries : (rs : List RoleInput) → length (map entry_of rs) ≡ length rs
length-entries [] = refl
length-entries (r ∷ rs) = ap suc (length-entries rs)

module _ (now : ℕ) (ids : Ids) (form : Form) where
  abbrev row : Config → Scenario
  row config = new_scenario now ids (record {
    scenario_type = form.scenario_type;
    name = form.scenario_name;
    description = form.scenario_desc;
    config = some config;
    created_by = none;
  })

  abbrev config_with : Option String → Option String → Option String → ℕ → Config
  config_with question script code timeout = record {
    agent_roles = some (roles_of form);
    question = question;
    script = script;
    code = code;
    timeout = some timeout;
  }

  abbrev form_with : Option String → Option String → Option String → ℕ → Form
  form_with question script code timeout = record (cloned form) {
    qa_question = text_or question "";
    qa_timeout = some timeout;
    code_script = text_or script "";
    code_code = text_or code "";
    code_timeout = some timeout;
  }

  clone-with :
      (question script code : Option String) (timeout : ℕ)
      → contains scenario_types form.scenario_type ≡ true
      → clone_scenario (row (config_with question script code timeout))
        ≡ filled (form_with question script code timeout)
  unfolding clone_scenario roles_of
  clone-with question script code timeout known =
      let config = config_with question script code timeout in
      ap (with_inputs (row config) config (roles_of form)) inputs
      ∙ rw
          (
            known,
            entries-map (take (shown_count form.execution_roles_count) form.roles),
            length-entries (complete_roles form),
          )
          refl
    where
      inputs :
          role_inputs 10 (roles_of form).execution_agents ≡ some (padded 10 (complete_roles form))
      inputs =
          ap (role_inputs 10)
            (entries-map (take (shown_count form.execution_roles_count) form.roles))
          ∙ role_inputs-map 10 (complete_roles form)

  -- The configuration that a form is built to, by its type.
  built_config : Config
  built_config =
      if form.scenario_type == "simple_qa"
      then config_with (some form.qa_question) none none (timeout_of form)
      else config_with none (some form.code_script) (some form.code_code) (timeout_of form)

  build_config-built :
      (config : Config)
      → contains scenario_types form.scenario_type ≡ true
      → build_config form ≡ built config
      → config ≡ built_config
  unfolding build_config contains built_config
  build_config-built config known e = ground arith

  clone-row :
      contains scenario_types form.scenario_type ≡ true
      → clone_scenario (row built_config) ≡ filled (cloned form)
  unfolding built_config
  clone-row known = elim (Bool-cases (form.scenario_type == "simple_qa")) [
    | inl e ↦
        rw e (clone-with (some form.qa_question) none none (timeout_or form.qa_timeout 60) known)
    | inr e ↦ rw e (
        clone-with none (some form.code_script) (some form.code_code)
          (timeout_or form.code_timeout 300) known)
  ]

-- When the form is right and its id is new, what the clone view shows of the scenario that the form has
-- just created is the form: the same type, description and fields of that type, the scheduling role or
-- the default one, the groups that name an agent and its role, moved up, with the chosen servers, and
-- the timeout; the name has the mark of a copy, and the fields of the other type are empty.
pub show_clone_view-create_scenario :
    (now : ℕ) (ids : Ids) (form : Form) (p : Platform) (config : Config)
    → contains scenario_types form.scenario_type ≡ true
    → build_config form ≡ built config
    → find_by_scenario_id ids.scenario_id p.scenarios ≡ none
    → show_clone_view ids.scenario_id (create_scenario now ids form p).0 ≡ filled (cloned form)
unfolding show_clone_view create_scenario Manager.create_scenario
show_clone_view-create_scenario now ids form p config known e fresh =
    let found =
      find_by_key-added scenario_model ids.scenario_id p.scenarios (row now ids form config) fresh
        refl in
    rw (e, create_scenario)
      (rw (found, show_clone_view)
        (ap (λ c. clone_scenario (row now ids form c))
            (build_config-built now ids form config known e)
          ∙ clone-row now ids form known))
