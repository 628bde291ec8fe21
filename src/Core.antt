-- ===== src/Core.antt =====
-- internal/core and internal/httpsem: what the other parts share.
pub mod Uuid
pub mod Public
pub mod Carrier
pub mod Status
mod Tests
