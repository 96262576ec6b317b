-- ===== src/MsgPack.antt =====
-- The message-pack encoder and decoder of src/hlib/msgPack.
pub mod Format
pub mod FirstByte
pub mod Integer
pub mod Text
pub mod Sequence
pub mod Seek
pub mod Query
mod Tests
