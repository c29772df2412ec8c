-- ===== src/ScenarioManager/Release.antt =====
-- `ScenarioManager._release_scenario_agents`: the offsets, agents, tasks and runs of a scenario.
pub mod Tasks
use agent_server_platform.Base.{
  ℕ, ◌+◌, String, ◌<>◌, Bool, true, false, ◌||◌, Option, none, some, List, [], ◌∷◌, ◌++◌, ◌==◌,
  string_eq, if◌then◌else◌, ltb,
}
use agent_server_platform.Base.Dict.{Dict, lookup, erase}
use agent_server_platform.StateMachine.{is_terminal}
use agent_server_platform.Database.Tasks.{Task, find_by_scenario_id, mark_as_failed}
use agent_server_platform.Database.Messages.{Offsets}
use agent_server_platform.Database.Agents.{delete_by_scenario_id}
use agent_server_platform.Agents.{AgentRun}
use agent_server_platform.Platform.{Platform, emit, agents_released}

-- `offset = find_by_id(consumer_id); if offset: delete(consumer_id)`
unfoldable pub release_offset : String → Offsets → Offsets
unfolding lookup erase
release_offset consumer_id offsets = elim (lookup consumer_id offsets) [
  | none ↦ offsets
  | some _ ↦ erase consumer_id offsets
]

-- `for prefix in ("execution_worker", "scheduling_agent")`
unfoldable pub release_offsets : String → Offsets → Offsets
unfolding release_offset
release_offsets scenario_id offsets =
    release_offset ("scheduling_agent:" <> scenario_id)
      (release_offset ("execution_worker:" <> scenario_id) offsets)

-- What the loop over the tasks changes and counts.
pub record Progress : Type 0 where
  pub tasks : List Task
  pub agent_runs : Dict String AgentRun
  pub cleaned : List AgentRun
  pub released_runs : ℕ
  pub cancelled_tasks : ℕ

-- The run that `pop` returns, as a list.
abbrev pub popped : Option AgentRun → List AgentRun
popped none = []
popped (some run) = run ∷ []

-- `if task.agent_run_id:`; a run is counted whether or not the registry has it.
unfoldable pub release_run : Option String → Progress → Progress
release_run none w = w
release_run (some run_id) w = if run_id == "" then w else record w {
  agent_runs = erase run_id w.agent_runs;
  cleaned = w.cleaned ++ popped (lookup run_id w.agent_runs);
  released_runs = w.released_runs + 1;
}

module _ (now : ℕ) where
  -- `if task.state not in terminal_states`, with the state that the query has read.
  unfoldable pub cancel_task : Task → Progress → Progress
  cancel_task t w = if is_terminal t.state then w else record w {
    tasks = (mark_as_failed now t.task_id "Cancelled: scenario ended" w.tasks).0;
    cancelled_tasks = w.cancelled_tasks + 1;
  }

  unfoldable pub release_each : List Task → Progress → Progress
  unfolding cancel_task release_run
  release_each [] w = w
  release_each (t ∷ ts) w = release_each ts (release_run t.agent_run_id (cancel_task t w))

  unfoldable pub release_scenario_agents : String → Platform → Platform
  unfolding release_each release_offsets
  release_scenario_agents scenario_id p =
      let w = release_each (find_by_scenario_id scenario_id p.tasks) (record {
        tasks = p.tasks;
        agent_runs = p.agent_runs;
        cleaned = p.cleaned;
        released_runs = 0;
        cancelled_tasks = 0;
      }) in
      let released = record p {
        offsets = release_offsets scenario_id p.offsets;
        agents = (delete_by_scenario_id scenario_id p.agents).0;
        tasks = w.tasks;
        agent_runs = w.agent_runs;
        cleaned = w.cleaned;
      } in
      if ltb 0 w.released_runs || ltb 0 w.cancelled_tasks
      then emit (agents_released scenario_id w.released_runs w.cancelled_tasks) released
      else released
