-- ===== src/ScenarioManager/Execution.antt =====
-- `ScenarioManager._execute_scenario`, `stop_scenario` and `shutdown`.
pub mod Endings
use agent_server_platform.Base.{
  ℕ, String, Bool, true, false, Option, none, some, List, [], ◌∷◌, string_eq,
}
use agent_server_platform.Base.Dict.{keys, erase}
use agent_server_platform.StateMachine.{ScenarioState}
use agent_server_platform.Database.Scenarios.{
  Config, find_by_scenario_id, update_scenario_state, mark_as_completed, mark_as_failed,
}
use agent_server_platform.Platform.{
  Platform, emit, scenario_completed, scenario_failed, scenario_stopped,
}
use agent_server_platform.ScenarioManager.{Answer, returned, raised, loads, no_context}
use agent_server_platform.ScenarioManager.Release.{release_scenario_agents}

-- `scenario.start` returns or raises.
pub data Outcome : Type 0 where
  finished : Outcome
  error : String → Outcome

-- Where `stop_scenario` is when it comes to `with self.lock`, if it comes there.
pub data Stage : Type 0 where
  not_found unreadable at_lock : Stage

module _ (now : ℕ) (scenario_id : String) where
  -- `if scenario_id in self.active_scenarios: del ...`
  abbrev pub drop_active : Platform → Platform
  drop_active p = record p { active_scenarios = erase scenario_id p.active_scenarios }

  unfoldable pub settle : Outcome → Platform → Platform
  settle finished p =
      emit (scenario_completed scenario_id)
        (record p { scenarios = (mark_as_completed now scenario_id p.scenarios).0 })
  settle (error message) p =
      emit (scenario_failed scenario_id message)
        (record p { scenarios = (mark_as_failed now scenario_id p.scenarios).0 })

  -- `_execute_scenario`; `start` is the scenario's own code, with all that happens while it runs.
  unfoldable pub execute_scenario :
      (Config → Platform → Platform × Outcome) → Config → Platform → Platform
  unfolding settle
  execute_scenario start config p =
      let (ran, outcome) = start config p in
      drop_active (release_scenario_agents now scenario_id (settle outcome ran))

  unfoldable pub stop_begin : Platform → Platform × Stage
  stop_begin p = elim (find_by_scenario_id scenario_id p.scenarios) [
    | none ↦ (p, not_found)
    | some s ↦ elim (loads no_context s.context) [
      | none ↦ (p, unreadable)
      | some _ ↦ (
        record p {
          scenarios = (update_scenario_state now scenario_id ScenarioState.cancelled p.scenarios).0;
        },
        at_lock,
      )
    ]
  ]

  -- The rest; the instance's own `cleanup`, whose errors are ignored, is outside.
  unfoldable pub stop_end : Platform → Platform
  stop_end p =
      emit (scenario_stopped scenario_id) (release_scenario_agents now scenario_id (drop_active p))

  -- What `stop_scenario` answers from each stage.
  unfoldable pub stop_after : Platform × Stage → Platform × Answer
  unfolding stop_end
  stop_after (p, not_found) = (p, returned false)
  stop_after (p, unreadable) = (p, raised)
  stop_after (p, at_lock) = (stop_end p, returned true)

  unfoldable pub stop_scenario : Platform → Platform × Answer
  unfolding stop_begin stop_after
  stop_scenario p = stop_after (stop_begin p)

-- How `shutdown` ends: it holds the lock that `stop_scenario` waits for, and the lock is not reentrant.
pub data Shutdown : Type 0 where
  done blocked failed : Shutdown

-- One round of `shutdown`, with what the later rounds would do.
abbrev pub shutdown_after : Platform × Stage → Platform × Shutdown → Platform × Shutdown
shutdown_after (p, not_found) rest = rest
shutdown_after (p, unreadable) rest = (p, failed)
shutdown_after (p, at_lock) rest = (p, blocked)

-- The loop of `shutdown` over `list(self.active_scenarios.keys())`.
unfoldable pub shutdown_each : ℕ → List String → Platform → Platform × Shutdown
unfolding stop_begin
shutdown_each now [] p = (p, done)
shutdown_each now (scenario_id ∷ ids) p =
    let stage = stop_begin now scenario_id p in
    let rest = shutdown_each now ids stage.0 in shutdown_after stage rest

unfoldable pub shutdown : ℕ → Platform → Platform × Shutdown
unfolding shutdown_each keys
shutdown now p = shutdown_each now (keys p.active_scenarios) p
