-- ===== src/Command.antt =====
-- The command system of internal/command: its types, the parser, the port table and the executor.
pub mod Types
pub mod Parse
pub mod Ports
pub mod Aftermath
pub mod Executor
pub mod Sync
pub mod Handlers
