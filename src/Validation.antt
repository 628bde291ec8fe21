-- ===== src/Validation.antt =====
-- internal/validationrule: the rules that a field's tag asks for.
pub mod Parse
pub mod Tags
pub mod Plan
pub mod Terminates
pub mod Check
pub mod Reached
pub mod Valid
mod Tests
mod Runs
