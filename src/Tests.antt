-- ===== src/Tests.antt =====
-- Runs of the models on concrete input.
mod Handling
mod Coding
mod Deriving
mod Handshakes
mod Messages
mod Requests
mod Tasks
mod Watching
mod Timing
mod Streams
mod PlainStreams
mod Connections
mod Serving
