-- ===== src/Cli.antt =====
-- src/cli: the command line and what it prints.
pub mod Accepts
pub mod Bounds
pub mod Commands
pub mod Main
pub mod Hex
pub mod Options
pub mod Output
pub mod RoundTrip
