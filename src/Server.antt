-- ===== src/Server.antt =====
-- src/server/serve.rs: the resolvers of the host, the tasks that serve the listen addresses, the
-- reload of the configuration and the loop that drives them.
pub mod Resolv
pub mod Threads
pub mod Reload
pub mod Serve
pub mod Answers
pub mod Isolated
pub mod Upstream
pub mod Samples
mod Tests
