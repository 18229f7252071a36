-- ===== src/Dfinder/Server.antt =====
-- src/dfinder/server.rs: the registry's state, its handlers, and the health probe.
pub mod State
pub mod Locked
pub mod Handlers
pub mod Cycle
pub mod Queries
pub mod Verdict
pub mod Answers
pub mod Interleaving
pub mod Serving
