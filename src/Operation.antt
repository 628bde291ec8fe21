-- ===== src/Operation.antt =====
-- internal/operation: operations and the handlers made of them.
pub mod Model
pub mod Fields
pub mod Runtime
pub mod Compile
pub mod OpenApi
pub mod Plans
pub mod Declared
pub mod Endings
pub mod Cases
pub mod Documented
pub mod Sound
pub mod Sealed
pub mod Guarded
pub mod Grouped
pub mod Answered
mod Tests
mod TypedTests
