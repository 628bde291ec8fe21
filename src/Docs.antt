-- ===== src/Docs.antt =====
-- internal/docs: the handlers of the OpenAPI document and of the Swagger page.
pub mod Serve
pub mod Page
pub mod Answers
mod Tests
