-- ===== src/Go.antt =====
-- The repository's Go packages, which speak the protocols of the Rust crate: the frames, the client
-- of the proxy with its encoder, and the command `tframe`.
pub mod Frame
pub mod Hex
pub mod Client
pub mod Encode
pub mod Command
pub mod Samples
