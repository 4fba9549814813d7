-- ===== src/Agent/Runtime.antt =====
-- The bounded runtime: src/mtbank_ai/agent_runtime/runtime.py.
pub mod Action
mod Types
mod Steps
mod Calls
mod Turn
pub mod Keeps
pub mod Safety
pub mod Phases
mod Asked
mod Allowed
mod Executed
pub mod Completed
pub mod Outcome
pub use Types.{
  World, ModelAnswer, answered, model_timeout, model_error, model_crashed, TaskStep, task_started,
  task_completed, task_failed, TrajectoryRecord, RunState, AgentOutcome,
}
unfoldable pub use Turn.{run}
