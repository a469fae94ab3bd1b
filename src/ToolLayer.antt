-- ===== src/ToolLayer.antt =====
-- tool: what all tools share.
pub mod Validation
pub mod Registry
