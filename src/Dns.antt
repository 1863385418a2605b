-- ===== src/Dns.antt =====
-- src/dns/coredns.rs: what the server does with a message. `Message` has the parts of the protocol
-- library as a parameter, `Answer` the two local answers, `Process` the handler of a message,
-- `Forward` the loop over the upstream servers, `Listen` the event loops.
pub mod Message
pub mod Answer
pub mod Process
pub mod Forward
pub mod Listen
pub mod Samples
mod Tests
