-- ===== src/Tasks.antt =====
-- The refresh tasks of the workers (internal/tasks/esi), and what is shown of them.
pub mod Stream
pub mod Items
pub mod Normalized
pub mod Refresh
pub mod Attempts
pub mod Callback
pub mod Settlement
pub mod Settled
pub mod Stored
pub mod Keys
pub mod Kept
pub mod RoundTrip
pub mod Excluded
pub mod Examples
