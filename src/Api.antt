-- ===== src/Api.antt =====
-- lafere-api: messages, the packets of the request and response protocol.
pub mod Data
pub mod EncDec
pub mod Serving
pub mod EndToEnd
pub mod Message
pub mod Requests
