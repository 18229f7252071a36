-- ===== src/Go/Command.antt =====
-- cmd/tframe: the command `tframe get`, which asks a server for one frame and prints its data.
pub mod Manifest
pub mod Get
pub mod Main
pub mod Tests
