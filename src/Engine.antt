-- ===== src/Engine.antt =====
-- The engine package: one Agent run, the stream of a model, and the reliability policy.
pub mod Stream
pub mod Circuit
pub mod Retry
pub mod Runtime
pub mod Policy
pub mod Tools
pub mod Agent
