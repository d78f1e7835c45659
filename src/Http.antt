-- ===== src/Http.antt =====
-- src/http_api.rs: the handlers of the HTTP API, and the rate limit before them, in the modules below.
pub mod Bucket
pub mod Response
pub mod Handlers
pub mod Verified
pub mod Session
pub mod Ready
pub mod Examples
