-- ===== src/Jobs.antt =====
-- internal/jobs: the client's side of a job's life, and the scheduler's.
pub mod Submit
pub mod Cancel
pub mod Replay
pub mod CanonicalJson
pub mod Normalize
pub mod Fingerprint
pub mod Listing
pub mod Schedule
pub mod Steps
pub mod Idempotency
pub mod Cancellation
pub mod Replays
