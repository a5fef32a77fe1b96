-- ===== src/Worker.antt =====
-- internal/worker: the process that executes claimed work.
pub mod Registry
pub mod Renewal
pub mod Retry
pub mod Outcome
