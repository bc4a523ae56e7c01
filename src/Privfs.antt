-- ===== src/Privfs.antt =====
-- The privileged helper, internal/privfs.
pub mod Names
pub mod Mode
pub mod Units
pub mod Packages
pub mod Path
pub mod Files
pub mod Grants
pub mod Cli
pub mod Run
pub mod Firewall
mod Tests
