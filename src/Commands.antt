-- ===== src/Commands.antt =====
-- The commands of internal/cli that work on coverage files.
pub mod Combine
pub mod Patterns
pub mod Run
pub mod Report
pub mod Main
