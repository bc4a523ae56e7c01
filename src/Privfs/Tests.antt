-- ===== src/Privfs/Tests.antt =====
-- The laws of internal/privfs at concrete inputs, and runs of its functions.
mod PathTests
mod ModeTests
mod UnitTests
mod PackageTests
mod CliTests
mod FirewallTests
mod FileTests
mod GrantTests
mod RunTests
mod BackendTests
