-- ===== src/Dfinder.antt =====
-- src/dfinder: nodes register with a registry and are found by their labels.
pub mod Protocol
pub mod Store
pub mod Server
pub mod Client
pub mod EndToEnd
pub mod Samples
pub mod Runs
pub mod Tests
