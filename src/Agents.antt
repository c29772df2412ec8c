-- ===== src/Agents.antt =====
-- src/core/agents/base_agent.py: `SystemMessageOutput` and `AgentRun`. The two queues are lists, the
-- oldest entry first; a message stands without its time stamp. The agent's own `run` and `cleanup`
-- are outside: a run names its agent by its class.
mod Output
mod Samples
use agent_server_platform.Base.{
  ℕ, zero, suc, ◌+◌, String, Bool, true, false, Option, none, some, List, [], ◌∷◌, ◌++◌,
  if◌then◌else◌, ltb, length,
}
use agent_server_platform.Database.Messages.{Result}
use agent_server_platform.Database.Scenarios.{Config}

pub record SystemMessageOutput : Type 0 where
  pub maxsize : ℕ
  pub message_queue : List String
  pub result_queue : List Result

-- `SystemMessageOutput.__init__`
abbrev pub new_output : ℕ → SystemMessageOutput
new_output maxsize = record { maxsize = maxsize; message_queue = []; result_queue = [] }

-- `put_nowait` on a `queue.Queue(maxsize)`: an entry that does not fit is dropped; 0 is no bound.
unfoldable pub put_nowait : {A : Type 0} → ℕ → A → List A → List A
put_nowait zero x q = q ++ x ∷ []
put_nowait (suc n) x q = if ltb (length q) (suc n) then q ++ x ∷ [] else q

unfoldable pub emit_message : String → SystemMessageOutput → SystemMessageOutput
emit_message message out = record out {
  message_queue = put_nowait out.maxsize message out.message_queue;
}

-- The queue of results has room for one.
unfoldable pub set_result : Result → SystemMessageOutput → SystemMessageOutput
set_result result out = record out { result_queue = put_nowait 1 result out.result_queue }

-- `get(timeout)` with its errors caught: the oldest entry, or nothing where the wait ends.
unfoldable pub pop : {A : Type 0} → List A → List A × Option A
pop [] = ([], none)
pop (x ∷ xs) = (xs, some x)

unfoldable pub get_message : SystemMessageOutput → SystemMessageOutput × Option String
unfolding pop
get_message out = let (rest, m) = pop out.message_queue in (record out { message_queue = rest }, m)

unfoldable pub get_result : SystemMessageOutput → SystemMessageOutput × Option Result
unfolding pop
get_result out = let (rest, r) = pop out.result_queue in (record out { result_queue = rest }, r)

-- `SystemMessageOutput.reset`
unfoldable pub reset_output : SystemMessageOutput → SystemMessageOutput
reset_output out = record out { message_queue = []; result_queue = [] }

pub record AgentRun : Type 0 where
  pub agent_class : String
  pub agent_type : String
  pub task_id : String
  pub config : Config
  pub processing : Bool
  pub result : Option Result
  pub error : Option String
  pub started_at : Option ℕ
  pub completed_at : Option ℕ
  pub system_message_output : SystemMessageOutput

-- `AgentRun.__init__`
abbrev pub new_run : String → String → String → Config → AgentRun
new_run agent_class agent_type task_id config = record {
  agent_class = agent_class;
  agent_type = agent_type;
  task_id = task_id;
  config = config;
  processing = false;
  result = none;
  error = none;
  started_at = none;
  completed_at = none;
  system_message_output = new_output 1000;
}

unfoldable pub start : ℕ → AgentRun → AgentRun
start now run = record run { processing = true; started_at = some now }

unfoldable pub complete : ℕ → Result → AgentRun → AgentRun
complete now result run = record run {
  processing = false;
  result = some result;
  completed_at = some now;
  system_message_output = set_result result run.system_message_output;
}

unfoldable pub fail : ℕ → String → AgentRun → AgentRun
fail now error run = record run { processing = false; error = some error; completed_at = some now }

unfoldable pub reset : AgentRun → AgentRun
reset run = record run {
  processing = false;
  result = none;
  error = none;
  started_at = none;
  completed_at = none;
  system_message_output = reset_output run.system_message_output;
}
