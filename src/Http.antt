-- ===== src/Http.antt =====
-- The `http://` client of src/http.rs: URLs, query components, requests on a connection, responses.
pub mod Url
pub mod Query
pub mod Chunked
pub mod Response
pub mod Request
pub mod Split
