-- ===== src/Agent.antt =====
-- The bounded agent runtime: src/mtbank_ai/agent_runtime/.
pub mod Contracts
pub mod Circuit
pub mod Retry
pub mod Stream
pub mod Tools
pub mod Events
pub mod Runtime
