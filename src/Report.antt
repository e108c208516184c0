-- ===== src/Report.antt =====
-- The reporters of internal/report.
pub mod Html
pub mod Lcov
pub mod Formats
pub mod Sources
pub mod Json
