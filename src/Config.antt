-- ===== src/Config.antt =====
-- src/config.rs: how the settings come about.
pub mod Settings
pub mod Merge
pub mod Parse
pub mod File
pub mod CommandLine
pub mod Valid
mod Tests
