-- ===== src/Dfinder/Tests.antt =====
-- The registry's theorems at inputs that meet their hypotheses.
pub mod Registry
pub mod Connections
pub mod Serving
pub mod Cycles
