-- ===== src/Worker.antt =====
-- The worker's polling: cmd/worker/poll.go.
pub mod Backoff
pub mod Waiting
pub mod Cycle
pub mod Reported
