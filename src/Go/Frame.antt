-- ===== src/Go/Frame.antt =====
-- tinyframe/frame.go: the Go package that writes and reads the frames of src/tiny_frame.rs. The
-- children model it; `Agrees` and `Interop` set it beside the Rust code.
pub mod Types
pub mod Codec
pub mod Key
pub mod Payload
pub mod Stream
pub mod Agrees
pub mod Interop
pub mod Tests
