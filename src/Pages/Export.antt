-- ===== src/Pages/Export.antt =====
-- The exported file: the order of the history in `generate_scenario_export_html`, `_extract_trace_id`,
-- `_sanitize_filename` and the name in `write_export_file` of
-- src/pages/scenario_dashboard/export_html.py. The names are lists of code points.
pub mod FileName
mod Samples
use agent_server_platform.Base.{
  ℕ, String, Bool, true, false, not, ◌||◌, Option, none, some, List, [], ◌∷◌, ◌++◌, ◌==◌, nat_eq,
  if◌then◌else◌, ltb, take, contains, is_space_code,
}
use agent_server_platform.Database.Query.{sort_by}
use agent_server_platform.Database.Messages.{Message}
use agent_server_platform.Database.Scenarios.{Json, value, malformed, ScenarioContext, Scenario}
use agent_server_platform.EventBus.{Event}
use agent_server_platform.Pages.Values.{Value}
use agent_server_platform.Pages.History.{Entry, or_text, build_message_history}

-- `_extract_trace_id`
abbrev pub trace_in : Option (Json ScenarioContext) → String
trace_in none = ""
trace_in (some malformed) = ""
trace_in (some (value context)) = or_text context.trace_id ""

abbrev pub extract_trace_id : Option Scenario → String
extract_trace_id none = ""
extract_trace_id (some s) = trace_in s.context

-- `key=lambda r: r["time"]`
abbrev pub older : Entry → Entry → Bool
older e f = ltb e.time f.time

module _ (type_zh : String → String) (parse : String → Option Value) where
  unfoldable pub timeline : Scenario → List Message → List Event → List Entry
  unfolding build_message_history sort_by
  timeline s messages events =
      let trace_id = extract_trace_id (some s) in
      sort_by older (build_message_history type_zh parse s.scenario_id trace_id messages events)

-- `[\\/:*?"<>|\s]`
unfoldable pub is_forbidden : ℕ → Bool
unfolding is_space_code contains
is_forbidden c =
    contains (b'\\' ∷ b'/' ∷ b':' ∷ b'*' ∷ b'?' ∷ 34 ∷ b'<' ∷ b'>' ∷ b'|' ∷ []) c || is_space_code c

-- `re.sub(r'[...]+', "_", name)`; the truth value is whether the character before was replaced.
unfoldable pub replace_runs : Bool → List ℕ → List ℕ
unfolding is_forbidden
replace_runs replaced [] = []
replace_runs replaced (c ∷ s) =
    let inside = replace_runs true s in
    let outside = replace_runs false s in
    let run = if replaced then inside else b'_' ∷ inside in
    if is_forbidden c then run else c ∷ outside

-- `.strip("_")`
unfoldable pub skip_underscores : List ℕ → List ℕ
skip_underscores [] = []
skip_underscores (c ∷ s) = let rest = skip_underscores s in if c == b'_' then rest else c ∷ s

abbrev pub unless_underscore : ℕ → List ℕ → List ℕ
unless_underscore c [] = if c == b'_' then [] else c ∷ []
unless_underscore c (d ∷ s) = c ∷ d ∷ s

unfoldable pub drop_underscores : List ℕ → List ℕ
drop_underscores [] = []
drop_underscores (c ∷ s) = unless_underscore c (drop_underscores s)

abbrev pub default_name : List ℕ
default_name = b's' ∷ b'c' ∷ b'e' ∷ b'n' ∷ b'a' ∷ b'r' ∷ b'i' ∷ b'o' ∷ []

-- `cleaned[:40] or "scenario"`
abbrev pub named_or : List ℕ → List ℕ
named_or [] = default_name
named_or (c ∷ s) = c ∷ s

unfoldable pub sanitize_filename : List ℕ → List ℕ
unfolding replace_runs skip_underscores drop_underscores
sanitize_filename name =
    named_or (take 40 (drop_underscores (skip_underscores (replace_runs false name))))

abbrev pub base_of : Option (List ℕ) → List ℕ
unfolding sanitize_filename
base_of none = default_name
base_of (some name) = sanitize_filename name

-- The name of the file by the name of the scenario, if there is one, and its id.
unfoldable pub export_name : Option (List ℕ) → List ℕ → Option (List ℕ)
unfolding base_of
export_name name [] = none
export_name name (c ∷ s) =
    some (base_of name ++ b'_' ∷ take 8 (c ∷ s) ++ b'.' ∷ b'h' ∷ b't' ∷ b'm' ∷ b'l' ∷ [])
