-- ===== src/PromProxy.antt =====
-- src/prom_proxy: a proxy that forwards Prometheus remote writes.
pub mod Protocol
pub mod Edge
pub mod Encode
pub mod Client
pub mod Server
pub mod Samples
pub mod Tests
