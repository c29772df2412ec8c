-- ===== src/Pages/Assistant/Chat.antt =====
-- `_detect_edit` and `reply` of src/pages/home/assistant.py: one turn of the conversation. `is_word` is
-- `\w` of the regular expressions, `loads` is `json.loads` of a draft, `chat` the answer of the language
-- model to the messages that hold the pending draft, `strip` is `str.strip`.
pub mod Target
use Prim.Native.Char.{Char}
use agent_server_platform.Base.{
  ℕ, String, ◌<>◌, Bool, true, false, not, ◌&&◌, ◌||◌, Option, none, some, List, [], ◌∷◌, ◌==◌,
  string_eq, if◌then◌else◌, any, leb, has_text, has_prefix, prefix, text_length,
}
use agent_server_platform.Base.Marks.{is_hex, all_chars, first_word, find_marked, remove_marked}
use agent_server_platform.StateMachine.{ScenarioState, scenario_state_eq}
use agent_server_platform.Database.Scenarios.{Scenario}
use agent_server_platform.Pages.Dashboard.{value_of}
use agent_server_platform.Pages.Assistant.{
  Spec, is_given, validate_scene_spec, load_scenario_spec, resolve_scenario,
}

-- `_MODIFY_KEYWORDS`
abbrev pub modify_keywords : List String
modify_keywords =
    "修改" ∷ "编辑" ∷ "调整" ∷ "更新" ∷ "变更" ∷ "重命名" ∷ "改一下" ∷ "改成" ∷ "modify" ∷ "edit" ∷ "update"
    ∷ "rename" ∷ "change" ∷ []

-- `[0-9a-fA-F]{4,36}` on a whole word.
unfoldable pub is_id : String → Bool
unfolding all_chars is_hex
is_id s = all_chars is_hex s && leb 4 (text_length s) && leb (text_length s) 36

-- The answer of `_detect_edit`: no edit, a scenario to load, or one that may not be changed.
pub data Detected : Type 0 where
  no_edit : Detected
  target : String → Detected
  locked : String → ScenarioState → Detected

-- The scenario that is being edited is the one that is meant.
abbrev pub is_same : String → Scenario → Bool
is_same wanted cur =
    (cur.scenario_id == wanted)
    || has_prefix wanted cur.scenario_id
    || has_prefix (prefix (text_length wanted) cur.scenario_id) wanted

abbrev pub goes_on : String → Option String → Option Spec → List Scenario → Bool
goes_on wanted none pending rows = false
goes_on wanted (some saved_id) none rows = false
goes_on wanted (some saved_id) (some draft) rows =
    let same : Bool = elim (resolve_scenario saved_id rows) [
      | none ↦ false
      | some cur ↦ is_same wanted cur
    ] in
    if saved_id == "" then false else same

abbrev pub resolve_target : Option Scenario → Detected
resolve_target none = no_edit
resolve_target (some s) =
    if s.state == ScenarioState.initializing
    then target s.scenario_id
    else locked s.scenario_id s.state

-- From the id on that the user means.
abbrev pub detect_wanted : Option String → Option String → Option Spec → List Scenario → Detected
detect_wanted none saved_id pending rows = no_edit
detect_wanted (some wanted) saved_id pending rows =
    if wanted == ""
    then no_edit
    else if goes_on wanted saved_id pending rows
    then no_edit
    else resolve_target (resolve_scenario wanted rows)

-- `m.group(1) if m else saved_id`
abbrev pub wanted_id : Option String → Option String → Option String
wanted_id none saved_id = saved_id
wanted_id (some found) saved_id = some found

module _ (is_word : Char → Bool) where
  unfoldable pub detect_edit : String → Option String → Option Spec → List Scenario → Detected
  unfolding first_word has_text is_id resolve_scenario
  detect_edit user_text saved_id pending rows =
      let wanted = wanted_id (first_word is_word is_id "" user_text) saved_id in
      if any (λ k. has_text k user_text) modify_keywords
      then detect_wanted wanted saved_id pending rows
      else no_edit

-- What a turn returns, less the preview of the pending draft.
pub record Turn : Type 0 where
  pub text : String
  pub pending : Option Spec
  pub saved_id : Option String

abbrev pub mark : String
mark = "```scene-spec"

-- The draft and the id that the answer is asked for with, once a scenario is to be loaded.
abbrev pub load_target :
    String → Option Spec → Option String → Option Spec → Option Spec × Option String
load_target k pending saved_id none = (pending, saved_id)
load_target k pending saved_id (some loaded) = (some loaded, some k)

-- A draft in the answer replaces the pending one where it is valid or at least has a type.
abbrev pub accept : Option Spec → Spec → Option Spec
accept pending spec =
    if (validate_scene_spec spec).0 || is_given spec.scenario_type then some spec else pending

module _ (is_word : Char → Bool) (strip : String → String) (loads : String → Option Spec) where
  unfoldable pub parse_scene_spec : String → Option Spec
  unfolding find_marked
  parse_scene_spec raw = elim (find_marked mark raw) [ none ↦ none | some inside ↦ loads inside ]

  -- What a turn makes of the answer.
  abbrev pub take_answer : Option String → Option Spec → Option String → Turn
  unfolding parse_scene_spec remove_marked validate_scene_spec
  take_answer none pending saved_id = record {
    text = "（助手暂时没有响应，请重试。）";
    pending = pending;
    saved_id = saved_id;
  }
  take_answer (some raw) pending saved_id =
      let answered : Turn = elim (parse_scene_spec raw) [
        | none ↦ record { text = raw; pending = pending; saved_id = saved_id }
        | some spec ↦ record {
          text = strip (remove_marked mark raw);
          pending = accept pending spec;
          saved_id = saved_id;
        }
      ] in
      if raw == ""
      then record { text = "（助手暂时没有响应，请重试。）"; pending = pending; saved_id = saved_id }
      else answered

  -- The message of a locked scenario, without the variation selector behind its first character.
  abbrev pub refusal : ScenarioState → String
  refusal state =
      "⚠ 该场景当前状态为「"
      <> value_of state
      <> "」，仅 `initializing` 状态的场景可修改。如需调整，请先在 Scenario Dashboard 停止/重建场景。"

  abbrev pub ask : (Option Spec → Option String) → Option Spec × Option String → Turn
  ask chat (draft, bound) = take_answer (chat draft) draft bound

  abbrev pub turn :
      (Option Spec → Option String) → Option Spec → Option String → List Scenario → Detected → Turn
  unfolding load_scenario_spec
  turn chat pending saved_id rows no_edit = ask chat (pending, saved_id)
  turn chat pending saved_id rows (target k) =
      ask chat (load_target k pending saved_id (load_scenario_spec k rows))
  turn chat pending saved_id rows (locked k state) = record {
    text = refusal state;
    pending = pending;
    saved_id = saved_id;
  }

  -- `reply` with a client.
  unfoldable pub reply :
      (Option Spec → Option String) → String → Option Spec → Option String → List Scenario → Turn
  unfolding detect_edit turn
  reply chat user_text pending saved_id rows =
      turn chat pending saved_id rows (detect_edit is_word user_text saved_id pending rows)
