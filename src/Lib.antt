-- ===== src/Lib.antt =====
-- The core of the agent server platform: a scheduling agent splits a goal into subtasks, dispatches
-- them in waves over a table of messages, and a central dispatcher runs each one here or forwards it
-- to an execution server; a watchdog recovers tasks that take too long.
--
-- The parts and their files:
-- * StateMachine (src/core/state_machine.py): the task and scenario states, `StateMachine` and its
--   two tables. Diagram has the task's life cycle as a relation, Attempts sequences of transitions.
-- * Database (src/database): tables are lists of rows. Query is `find_by_criteria` of
--   repositories/base_repository.py; Table is its `update` for any model class, with Table.Keyed and
--   Table.Sweep on tables whose keys are unique; Tasks is the task model and task_repository.py, with
--   Tasks.Update, Tasks.Keys and Tasks.Loops; Scenarios and Agents are the models and repositories of
--   scenarios and agents; Messages is the message model,
--   message_repository.py and consumer_offset_repository.py; Servers is the registry of execution
--   servers, with the calls that src/core/ws_server.py makes in Servers.Presence.
-- * Watchdog (src/core/watchdog.py): `_check_timeouts` and `_attempt_recovery`. Sweep compares a sweep
--   with a map over the rows, Budget follows one task of the table through its retries.
-- * Scheduling (src/core/agents/scheduling_agent.py): Subtasks is `_normalize_subtasks`
--   (Subtasks.Unique its ids), Waves is `_build_waves` (Loop its rounds, Order and Cycle what they yield, Ids its dict, Plan the whole),
--   Creation is `_create_subtask`, the creation loop of `run` (Creation.Rows what it leaves) and `transition_task_state`, Dispatch is
--   `_associate_role`, `_inject_upstream`, `_propagate_failure` and the choice of what goes out in a wave,
--   Run is the loop of `run` over the waves, Goal is `_decompose_goal` and the whole of `run`, with the
--   plans of the rules in Goal.Heuristic.
-- * LlmClient (src/core/llm_client.py): what `decompose_goal` takes out of the model's answer, Ids the
--   ids that come out.
-- * MessageQueue (src/core/message_queue.py): `dispatch_subtasks` and `collect_replies`.
-- * Dispatcher (src/core/central_dispatcher.py, src/core/ws_server.py): `finalize_task` and
--   `run_task_locally` on the tables; Hub has the state of both dispatchers and their operations,
--   Steps their interleavings, Holders and Rows what they keep.
-- * A2aProtocol (src/core/a2a_protocol.py): the bounded queues of the agents; Order has what
--   comes out of them.
-- * Agents (src/core/agents/base_agent.py): `AgentRun` and `SystemMessageOutput`, Output the bounds of
--   its queues. Platform is the state that the two managers share.
-- * ScenarioManager (src/scenarios/scenario_manager.py): creation, editing and start of scenarios, with
--   Starting on what a start changes; Release is `_release_scenario_agents`, with Release.Tasks on the
--   rows; Execution is `_execute_scenario`, `stop_scenario`
--   and `shutdown`, with Execution.Endings; Recovery is `recover_orphans_on_startup`, with
--   Recovery.Orphans.
-- * FlowDefinition (src/scenarios/flow_definition.py): the steps of a flow and their depth-first order.
--   Good has what a flow and a dependency are, Visits and Order what a visit keeps, Execution the whole.
-- * BaseScenario (src/scenarios/base_scenario.py, components.py): the start of a scenario, its outputs,
--   and Waiting for a task, over the list of the tables that the loop sees until its deadline.
-- * ExecutionServer (src/execution_server/task_runner.py, ws_client.py, src/core/ws_protocol.py): the jobs
--   of an execution server, its connection and its frames; Quota has them as a step relation.
-- * AgentManager (src/agents/agent_manager.py): submission and execution of tasks, Outcomes what they
--   leave behind.
-- * EventBus (src/core/event_bus.py): Delivery is where events go, Patterns which handlers they reach.
-- * Pages (src/pages): Dashboard is the start guard and the actions of scenario_dashboard/__init__.py,
--   Dashboard.Form its forms; Assistant is home/assistant.py, the drafts of scenarios, with a turn of the
--   conversation in Assistant.Chat. Of scenario_dashboard/export_html.py, Markdown is `_markdown_to_html`,
--   Values the summaries of event data, History `build_message_history` and Export the order of the
--   exported history and the name of the file.
-- The scheduling agent writes message rows and collects replies; the dispatcher reads those rows,
-- writes task and reply rows; the watchdog writes task rows. They meet in the tables only.
--
-- State is passed explicitly: a writer takes a table and returns it with its answer. Times are numbers
-- (microseconds in the watchdog), clock readings, database ids and uuids are arguments. The loop of
-- `_build_waves` gets as many rounds as there are ids, which is enough
-- since each round places one; a loop without enough rounds would be `unfinished`. `collect_replies` has the list of the
-- tables that it polls until its deadline.
-- The search of `get_execution_order` may be one level deeper than there are steps, which is enough
-- since the steps in progress differ. The text of a decimal number has its value plus one as
-- fuel for its digits.
--
-- Parameters stand for what is outside: `json.dumps`, `datetime.fromisoformat`, the order in which the
-- interpreter walks a set, the character classes of regular expressions, and the answers of an agent
-- and of the language model. JSON columns that the program reads back are
-- modelled by their values.
--
-- Not modelled: the layout of the pages and the HTTP API, connections, configuration and logging, threads and
-- sleeping, the calls of the language model, the loop and the process of the execution server around
-- its jobs and frames, and the code of a scenario itself. In `run` of the scheduling agent errors that a
-- table or a call raises, with the blanket `except` that answers them, and a None where a context has a
-- number are not modelled. Events are part of the model of the watchdog and of the two managers only.
pub mod Base
pub mod StateMachine
pub mod Database
pub mod Watchdog
pub mod Scheduling
pub mod MessageQueue
pub mod Dispatcher
pub mod A2aProtocol
pub mod AgentManager
pub mod Agents
pub mod BaseScenario
pub mod EventBus
pub mod ExecutionServer
pub mod FlowDefinition
pub mod LlmClient
pub mod Pages
pub mod Platform
pub mod ScenarioManager
