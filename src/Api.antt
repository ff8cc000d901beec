-- ===== src/Api.antt =====
-- src/api.rs: the checks of requests, the handlers and their responses, the configuration, and the
-- service as a whole.
pub mod Requests
pub mod Responses
pub mod Handlers
pub mod Ingest
pub mod Outcome
pub mod Graded
pub mod Accepts
pub mod Config
pub mod Start
pub mod Discovery
pub mod Guard
pub mod Reserve
pub mod Router
pub mod Forever
pub mod Authorized
