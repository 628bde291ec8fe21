-- ===== src/App.antt =====
-- The application: its configuration, its registrations, and how it is built.
pub mod Settings
pub mod Model
pub mod Builder
pub mod Register
pub mod Document
pub mod Build
pub mod Frozen
pub mod Built
pub mod Defaults
pub mod Edited
mod Tests
