-- ===== src/Wire.antt =====
-- crates/oxigeon-lua/src/wire.rs: the bytes between the server and a compute worker.
pub mod Cursor
pub mod Reads
pub mod Ensures
pub mod Value
pub mod Message
pub mod Frame
