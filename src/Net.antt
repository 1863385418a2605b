-- ===== src/Net.antt =====
-- `std::net`: the addresses and their parsers.
pub mod Addr
pub mod Parser
mod Tests
