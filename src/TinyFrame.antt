-- ===== src/TinyFrame.antt =====
-- src/tiny_frame.rs: the frame format that every protocol of the repository speaks.
-- The children model the source from its bits up; the proofs stand in the modules below them.
pub mod Types
pub mod Bytes
pub mod Header
pub mod Codec
pub mod Key
pub mod Payload
pub mod Wire
pub mod Stream
pub mod Roundtrip
pub mod Reading
pub mod Errors
pub mod Total
pub mod Samples
pub mod Tests
