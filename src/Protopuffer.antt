-- ===== src/Protopuffer.antt =====
-- protopuffer: a protobuf-like binary encoding.
pub mod Varint
pub mod Wire
pub mod Encoder
pub mod SizeBuilder
pub mod Format
pub mod Decoder
pub mod Encode
pub mod Decode
