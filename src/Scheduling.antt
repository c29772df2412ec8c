-- ===== src/Scheduling.antt =====
-- src/core/agents/scheduling_agent.py: the decomposition's subtasks and their scheduling.
pub mod Subtasks
pub mod Waves
pub mod Creation
pub mod Dispatch
pub mod Run
pub mod Goal
