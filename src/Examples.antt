-- ===== src/Examples.antt =====
-- The theorems at concrete inputs, and tests. No source file.
pub mod Weaving
pub mod Counting
pub mod Running
pub mod Pooling
pub mod Scaffolding
pub mod Combining
pub mod Connecting
pub mod Machine
pub mod Commanding
pub mod Reporting
