-- ===== src/Daemon/Tests.antt =====
-- The laws of internal/daemon at concrete inputs, and runs of its functions.
mod TaskTests
mod LogTests
mod FileApiTests
mod WebhookTests
mod StreamTests
mod ImageTests
