-- ===== src/Tests.antt =====
-- Runs of the definitions on concrete inputs, one file per part of sandbox/.
pub mod LimitsTests
pub mod RunnerTests
pub mod PoolTests
pub mod TasksTests
pub mod SessionsTests
pub mod EditorTests
pub mod BashTests
pub mod ToolsTests
pub mod ServerTests
pub mod ExecTests
pub mod LoggingTests
