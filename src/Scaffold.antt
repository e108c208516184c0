-- ===== src/Scaffold.antt =====
-- The generator of test scaffolds, internal/cli/init.go: the functions that a source creates, the
-- text of the scaffold, and the file that `pgcov init` writes.
pub mod Arguments
pub mod Functions
pub mod Render
pub mod Create
