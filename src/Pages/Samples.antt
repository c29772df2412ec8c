-- ===== src/Pages/Samples.antt =====
-- A platform with two scenarios, a form, a draft and a conversation, and the theorems at them.
use Prim.Native.Char.{Char, code}
use native.Mathlib.Decide.{ℕ_discrete}
use agent_server_platform.Base.{
  ℕ, String, ◌≡◌, ◌≢◌, ◌↔◌, refl, Bool, true, false, ◌&&◌, ◌||◌, Option, none, some, [], ◌∷◌, arith,
  string_eq, nat_eq, leb, ne_of_test, select, contains, any, option_map, has_text, is_blank,
}
use agent_server_platform.Base.Marks.{is_hex, all_chars, first_word, find_marked, remove_marked}
use agent_server_platform.StateMachine.{ScenarioState, scenario_state_eq, ScenarioState-discrete}
use agent_server_platform.Database.Query.{limited, sort_by, insert_sorted}
use agent_server_platform.Database.Tasks.{instant}
use agent_server_platform.Database.Table.{find_by_key, update}
use agent_server_platform.Database.Table.Keyed.{IsKeyed}
use agent_server_platform.Database.Scenarios.{
  value, agent, Config, empty_config, Scenario, scenario_model, find_by_scenario_id,
}
use agent_server_platform.Platform.{Platform}
use agent_server_platform.ScenarioManager.{Ids, returned, start_scenario, update_scenario}
use agent_server_platform.Pages.Dashboard.{scenario_types, value_of, start_guard}
use agent_server_platform.Pages.Dashboard.Guard.{start_guard-start_scenario}
use agent_server_platform.Pages.Dashboard.Form.{
  blank, Form, built, build_config, roles_of, create_scenario, filled, show_clone_view,
}
use agent_server_platform.Pages.Dashboard.Form.Clone.{cloned, show_clone_view-create_scenario}
use agent_server_platform.Pages.Assistant.{
  object, Spec, validate_scene_spec, save_scene, spec_of, load_scenario_spec, resolve_scenario,
}
use agent_server_platform.Pages.Assistant.Updates.{saved}
use agent_server_platform.Pages.Assistant.Saving.{save_scene-load, save_scene-refused}
use agent_server_platform.Pages.Assistant.Chat.{
  modify_keywords, parse_scene_spec, take_answer, reply,
}
use agent_server_platform.Pages.Assistant.Chat.Target.{reply-saved_id}

abbrev scenario : ℕ → String → ScenarioState → Scenario
scenario id scenario_id state = record {
  id = id;
  scenario_id = scenario_id;
  scenario_type = "simple_qa";
  name = "n";
  description = none;
  state = state;
  config = some (value empty_config);
  context = some (value (record { trace_id = some "t" }));
  created_by = none;
  created_at = id;
  updated_at = some (instant 0);
  started_at = none;
  completed_at = none;
}

abbrev platform : Platform
platform = record {
  scenarios =
      scenario 1 "abcd" ScenarioState.initializing ∷ scenario 2 "beef" ScenarioState.running ∷ [];
  tasks = [];
  agents = [];
  offsets = [];
  agent_runs = [];
  active_scenarios = [];
  cleaned = [];
  emitted = [];
}

scenarios-IsKeyed : IsKeyed scenario_model platform.scenarios
scenarios-IsKeyed = (((omega arith, ne_of_test "beef" "abcd" refl), tt), (tt, tt))

abbrev uuids : ℕ → String
uuids n = "u"

start_guard-start_scenario_example :
    ((start_guard
        (option_map (λ s. value_of s.state) (find_by_scenario_id "beef" platform.scenarios))).0
      ≡ true)
    ↔ ((start_scenario uuids 9 "beef" 1 1 platform).1.0 ≡ returned false)
start_guard-start_scenario_example = start_guard-start_scenario uuids 9 "beef" 1 1 platform

abbrev ids : Ids
ids = record { row_id = 3; scenario_id = "cafe"; trace_id = "t" }

fresh : find_by_scenario_id "cafe" platform.scenarios ≡ none
unfolding find_by_key limited sort_by select string_eq
fresh = refl

abbrev form : Form
form = record {
  scenario_type = "simple_qa";
  scenario_name = "n";
  scenario_desc = "d";
  scheduling_agent_role = "";
  execution_roles_count = 2;
  roles = blank ∷ record { name = "a"; role = "r"; server = "s" } ∷ [];
  qa_question = "q";
  qa_timeout = none;
  code_script = "";
  code_code = "";
  code_timeout = some 5;
}

abbrev config : Config
config = record {
  agent_roles = some (roles_of form);
  question = some "q";
  script = none;
  code = none;
  timeout = some 60;
}

form_built : build_config form ≡ built config
unfolding build_config string_eq
form_built = refl

type_known : contains scenario_types form.scenario_type ≡ true
unfolding contains string_eq
type_known = refl

show_clone_view-create_scenario_example :
    show_clone_view "cafe" (create_scenario 9 ids form platform).0 ≡ filled (cloned form)
show_clone_view-create_scenario_example =
    show_clone_view-create_scenario 9 ids form platform config type_known form_built fresh

abbrev spec : Spec
spec = record {
  scenario_type = some "simple_qa";
  name = some "m";
  description = none;
  config = some (
      object (record empty_config {
        agent_roles = some (record {
          scheduling_role = none;
          execution_agents = agent (some "a") (some "r") none ∷ [];
        });
        question = some "q";
      }));
}

answered : (save_scene 9 ids spec (some "abcd") platform).1.0 ≡ some "abcd"
unfolding save_scene validate_scene_spec contains string_eq is_blank any find_by_key limited sort_by
    select ScenarioState-discrete update_scenario update nat_eq ℕ_discrete
answered = refl

save_scene-load_example :
    load_scenario_spec "abcd" (save_scene 9 ids spec (some "abcd") platform).0.scenarios
    ≡ some (saved spec)
save_scene-load_example =
    save_scene-load 9 ids spec platform (some "abcd") "abcd" scenarios-IsKeyed fresh answered

locked : (save_scene 9 ids spec (some "beef") platform).1.0 ≡ none
unfolding save_scene validate_scene_spec contains string_eq is_blank any find_by_key limited sort_by
    select ScenarioState-discrete insert_sorted nat_eq ℕ_discrete
locked = refl

save_scene-refused_example : (save_scene 9 ids spec (some "beef") platform).0 ≡ platform
save_scene-refused_example =
    save_scene-refused 9 ids spec platform (some "beef") scenarios-IsKeyed locked

-- ASCII words.
abbrev is_word : Char → Bool
is_word c = is_hex c || (leb 97 (code c) && leb (code c) 122)

abbrev strip : String → String
strip s = s

abbrev loads : String → Option Spec
loads s = none

abbrev chat : Option Spec → Option String
chat draft = some "ok"

abbrev request : String
request = "rename abcd"

bound : (reply is_word strip loads chat request none none platform.scenarios).saved_id ≡ some "abcd"
unfolding reply parse_scene_spec remove_marked validate_scene_spec all_chars is_hex first_word
    find_marked has_text any load_scenario_spec resolve_scenario find_by_key limited sort_by select
    string_eq ScenarioState-discrete nat_eq ℕ_discrete
bound = refl

reply-saved_id_example :
    (any (λ w. has_text w request) modify_keywords ≡ true)
    × ((s : Scenario) × (find_by_scenario_id "abcd" platform.scenarios ≡ some s)
        × (s.state ≡ ScenarioState.initializing)
        × (reply is_word strip loads chat request none none platform.scenarios
            ≡ take_answer is_word strip loads
                (chat (some (spec_of s)))
                (some (spec_of s))
                (some "abcd")))
reply-saved_id_example =
    reply-saved_id is_word strip loads chat request none none platform.scenarios "abcd"
      scenarios-IsKeyed bound none-ne
  where
    none-ne : ◌≢◌ {A = Option String} none (some "abcd")
    none-ne e = cc e
