-- ===== src/Launch.antt =====
-- internal/shim and internal/run: the two ways in which a mapped command is started with its
-- variables; internal/agentwarn, the question of both when the agent is down; and internal/chpwd, which
-- keeps the wrappers of a shell.
pub mod Environment
pub mod WrapDir
pub mod Warning
pub mod Shim
pub mod Run
pub mod Wrappers
pub mod Prompt
mod Tests
