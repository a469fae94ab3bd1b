-- ===== src/Task.antt =====
-- The task package and the Task runtime of task_runtime.go.
pub mod Config
pub mod Protocol
pub mod Runtime
