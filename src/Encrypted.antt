-- ===== src/Encrypted.antt =====
-- lafere/src/encrypted: streams whose packets are enciphered.
pub mod Cursor
pub mod Handshake
pub mod EncryptedBytes
pub mod Stream
