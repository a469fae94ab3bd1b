-- ===== src/Tests.antt =====
-- Concrete runs of the parts of the program.
mod Data
mod Memories
mod Interactions
mod Settings
mod Streams
mod Circuits
mod World
mod Models
mod Agents
mod Tools
mod Tasks
mod Workflows
mod Teams
