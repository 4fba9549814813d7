-- ===== src/Examples.antt =====
-- Runs at concrete inputs, one module per component of src/mtbank_ai.
mod Circuit
mod Analysis
mod Retry
mod Stream
mod Trends
mod Tools
mod Events
mod Runtime
mod Speech
mod Api
mod Rolling
mod Ogg
mod Roles
