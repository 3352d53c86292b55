-- ===== src/Esi.antt =====
-- The rate limited client of EVE's API (internal/core/esi/rate_limited_client.go).
pub mod Bucket
pub mod Client
pub mod Feedback
pub mod Request
pub mod Threads
pub mod Examples
