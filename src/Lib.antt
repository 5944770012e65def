-- ===== src/Lib.antt =====
-- lafere is a packet protocol over TCP. protopuffer is the encoding of the values that it carries.
-- This library models the two and the messages of lafere-api.
--
-- Parts and files. A component's file holds its definitions, and its child modules the proofs.
--   * Base, Bits, Bytes: shared names, `Result`, Rust's integers (Base/Int), bit operations on
--     bytes as arithmetic, and the interface of the crate `bytes`: `BytesRead` and `BytesWrite` are
--     records of the functions that the code calls and of what it relies on.
--   * Protopuffer/Varint: protopuffer/src/varint.rs. `Varint::read` is `read` over `read_loop`,
--     whose number is the rounds that are left of ten; likewise `write`.
--   * Protopuffer/Wire: `WireType` of protopuffer/src/lib.rs, `FieldKind` and `Field` of decode.rs.
--   * Protopuffer/Decoder: `MessageDecoder` of protopuffer/src/decode.rs, as the bytes left.
--   * Protopuffer/Encoder, SizeBuilder: the two of protopuffer/src/encode.rs, as the bytes written
--     so far and as a sum modulo 2 ^ 64.
--   * Protopuffer/Encode: the trait `EncodeMessage` of encode.rs as a record of its methods, and
--     its implementations. `Lawful` says what an implementation promises.
--   * Protopuffer/Decode: the trait `DecodeMessage` of decode.rs and its implementations. The loop
--     `while let Some(..) = parser.next()?` runs on fuel, for which the number of bytes left is
--     enough, since an item takes at least one byte (Decode/Loop).
--   * Packet: lafere/src/packet/packet.rs. Flags are the u8 and its kinds. A packet is any type with
--     flags and an id that can be set: the handler needs no more.
--   * Packet/PacketBytes: lafere/src/packet/body_bytes.rs and bytes.rs. What is handed out to be changed
--     is changed by a function; `Lawful` is what a buffer promises, and Packet/PacketBytes/Body what the
--     operations of a body come to on a body by itself. Packet/PacketBytes/Plain: `PlainBytes`.
--   * Packet/Receiver: lafere/src/packet/builder.rs. `read_header` and `read_body` take the runs of
--     bytes that arrive and either wait, with what they keep, or are ready with what is left;
--     `receive` is the one of lafere/src/plain/mod.rs. Packet/Receiver/Pieces: the runs that arrive.
--   * Handler: lafere/src/handler/handler.rs. `Handler::send` is `send`, which gives the new state,
--     what was done to channels, and the result; `Handler::to_send` is `users_to_send` for its first
--     branch and `request_to_send` for its second (Handler/Outgoing); `HandlerState` is Handler/Ids.
--   * Handler/Task: `bg_stream` and `bg_stream_reconnect` of handler.rs. A turn is a branch of the
--     `select!`; `Run` is any number of turns, and `Streams` the streams before the present one.
--   * Derive: what the derive macros of protopuffer-codegen/src/encode.rs and decode.rs expand to. A
--     struct is the list of its fields, an enum that of its variants (Derive/Enums), each with the
--     two implementations for its type; a tuple is a struct whose fields are numbered from 0.
--   * Encrypted/Handshake: lafere/src/encrypted/handshake.rs. The crate `crypto` is the record
--     `Crypto`, and Encrypted/Cursor is the interface of the `Cursor` of `bytes`.
--   * Encrypted/EncryptedBytes: lafere/src/packet/encrypted_bytes.rs, over the `Key` of `crypto` as the
--     record `Cipher`. `BytesMut` has the interface of `Cursor`. A key is given back changed, also
--     after a mac that does not fit.
--   * Encrypted/Stream: `EncryptedPacketStream` of lafere/src/encrypted/stream.rs, the packet receiver
--     whose two parts are deciphered, with the key that it has then (Encrypted/Stream/Received).
--   * Timeout: lafere/src/util/timeout.rs. A read carries the times at which it asks for the time.
--   * Plain: `PlainPacketStream` of lafere/src/plain/mod.rs, a packet receiver behind a timeout. A
--     `Wake` is a poll of its future, with what arrived until then.
--   * Watch: lafere/src/util/watch.rs, the channel by which a user configures the task.
--   * Connection: lafere/src/handler/sender.rs; Connection/Server and Connection/Client:
--     lafere/src/server.rs and client.rs. Connection/System is a server's connection with its handler.
--   * Api/Message: lafere-api/src/message.rs. A message is a `Packet` of the handler.
--     Api/Message/Buffered is a message over any buffer.
--   * Api/Data: `Data` and `Session` of lafere-api/src/request_handlers.rs and server.rs. A `TypeId`
--     is a number, and `dyn Any` a value with one. Api/Data/Args: the arguments of `#[api]` functions,
--     of lafere-api/src/util.rs and lafere-api-codegen/src/api.rs; no result is a panic.
--   * Api/Requests: the handlers that `#[api]` writes, `RequestHandlers`, `BuiltServer::request` and
--     `Requestor::request`. A handler gives the session that it leaves.
--   * Api/Serving: `handle_connection` of lafere-api/src/request_handlers.rs, and
--     Api/Serving/Attached `attach_request_handlers` of lafere-api/src/client.rs.
--   * Api/EndToEnd: a request of a client that goes through the handlers of both connections and the
--     handlers of the server's requests, composed of the modules above.
--   * Api/EncDec: the protobuf bodies of lafere-api/src/encdec.rs.
--   * Tests: runs of the models.
-- The handler of one side sends what the other side's handler is given; the user's channels
-- connect the handler with the callers. The bodies of messages are bytes; protopuffer encodes values
-- as such bytes.
--
-- Numbers are natural numbers, with the wrap-around of u64 and the casts written out. A map is the
-- list of its entries; to insert an entry takes the place of one with its key. tokio's channels
-- are numbers: whether the other end listens, and what a poll gives, is asked of the surroundings.
--
-- Not modelled: sockets, the start of tasks, handlers that wait for each other, JSON bodies, and
-- how macros read Rust tokens.
pub mod Base
pub mod Bits
pub mod Bytes
pub mod Protopuffer
pub mod Derive
pub mod Packet
pub mod Encrypted
pub mod Handler
pub mod Api
pub mod Watch
pub mod Timeout
pub mod Plain
pub mod Connection
pub mod Tests
