-- ===== src/Worker.antt =====
-- The worker process: internal/worker.
pub mod Retry
pub mod RetryDelay
