-- ===== src/Failure.antt =====
-- internal/failure/writer.go, with internal/core/failure.go and problem.go.
mod Tests
pub mod Types
pub mod Write
pub mod Samples
pub mod Committed
pub mod Normalized
pub mod Formatted
