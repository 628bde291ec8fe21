-- ===== src/Binding.antt =====
-- internal/binding: what a request's path, query, header and body give to a handler's input.
mod Tests
pub mod Samples
pub mod Model
pub mod Compile
pub mod Scalar
pub mod Body
pub mod Bind
pub mod Refused
pub mod Bounded
pub mod Building
pub mod Sources
pub mod Covered
pub mod Typed
pub mod TypedValues
pub mod Places
pub mod TypedBind
pub mod TypedBody
mod TypedTests
