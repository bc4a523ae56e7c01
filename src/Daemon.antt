-- ===== src/Daemon.antt =====
-- The daemon, internal/daemon.
pub mod Files
pub mod ImageRef
pub mod Tasks
pub mod TaskStore
pub mod Logs
pub mod Stream
pub mod Webhook
mod Tests
