-- ===== src/Config/Contents.antt =====
-- src/config/mod.rs: what the result of `parse_configs` holds, against the files of the directory.
pub mod Run
pub mod Names
pub mod Build
pub mod Networks
pub mod Listens
pub mod Logged
pub mod Internal
pub mod Servers
pub mod Total
