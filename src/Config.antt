-- ===== src/Config.antt =====
-- src/config: the reader of the configuration directory. `Entry` has the types, `File` is
-- `parse_config`, `Directory` is `parse_configs`; the other modules are about them.
pub mod Entry
pub mod File
pub mod Directory
pub mod Sources
pub mod Branches
pub mod Cases
pub mod Facts
pub mod Index
pub mod Contents
pub mod Isolation
pub mod Order
pub mod Log
pub mod Samples
mod Tests
