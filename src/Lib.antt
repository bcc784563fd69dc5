-- ===== src/Lib.antt =====
-- librtmp2: the chunk layer of an RTMP implementation, and the codecs and small state machines
-- around it.
--
-- Bytes from a peer go into a `Buffer` (src/buffer.rs). `chunk_read` (src/chunk/reader.rs) takes
-- chunks off its front and collects each message in the stream of its chunk-stream id, which the
-- `ChunkRegistry` (src/chunk/state.rs) holds under limits on the streams and on the bytes in flight.
-- `chunk_write` (src/chunk/writer.rs) cuts messages into chunks. Finished messages are control
-- messages (src/message/control.rs) or carry AMF0 values (src/amf/amf0.rs); a connection moves
-- through its states by `conn_transition` (src/session/state_machine.rs) and a server gives each
-- route to one publisher (src/session/publish_route.rs).
--
-- Files:
--   Common           lists, options and numbers; Common/Result has `ErrorCode` and `Result` of
--                    src/types.rs, and `M S A`, code on a `&mut S` that may fail
--   Bytes            src/bytes.rs
--   Buffer           src/buffer.rs; Buffer/Codec describes code by the bytes it takes or adds
--   Message/Control  src/message/control.rs
--   Amf/Amf3         src/amf/amf3.rs
--   Handshake        src/handshake.rs, with its digests in Handshake/Digest; Sha256 src/sha256.rs
--   Media/Modex      src/media/modex.rs
--   Ertmp            src/ertmp: fourcc.rs, exvideo.rs, exaudio.rs, modex.rs; Types src/types.rs
--   Amf/Amf0         src/amf/amf0.rs (Write, Read, Skip); Amf0/Value is the format, by itself
--   Chunk/State      src/chunk/state.rs, with the registry's invariant in State/Inv
--   Chunk/Reader     src/chunk/reader.rs; Reader/Peek is the phase that consumes nothing
--   Chunk/Writer     src/chunk/writer.rs
--   Chunk/MediaOut   src/chunk/media_out.rs; MediaOut/Receive and Delivers read its compressed headers
--                    with src/chunk/reader.rs
--   Chunk/RoundTrip  the writer's chunks through the reader, in the loop of src/session/conn.rs
--   Session          src/session/state_machine.rs, src/session/publish_route.rs;
--                    Session/Connect is the handshake on a connection of src/session/conn.rs, and
--                    Session/ControlMessages what it does with the peer's control messages
--
-- An operation of the source is the definition of the same name (`Buffer::take` is `take_out`). A
-- `&mut self` is a state that goes in and comes out; an error still returns the state reached. A
-- byte is a number below 256 and a word is reduced by `% 2 ^ w` where the source wraps. An `f64` is
-- its 64 bits, and a `&str` the list of its bytes.
--
-- Fuel: `grow` doubles a capacity, and 15 rounds lead from 4096 past the largest size of 64 MiB;
-- `write_chunks` gets the payload's length, and a round takes a byte at least; skipping a value
-- recurses on the 32 levels and the 256 keys that the source counts itself. The reading loop ends in
-- as many rounds as there are unread bytes, and one more; `fill_from` and `absorb` get the number of
-- bytes, and `peel` the 32 layers of the source.
--
-- Not modelled: sockets, threads, callbacks and the C interface (src/server, src/client, src/net,
-- src/transport.rs, src/lib.rs), logging, and for now the rest of the connection
-- (src/session/conn.rs), commands, the init cache, FLV tags and multitrack. Allocation does not fail,
-- and no lock is poisoned.
pub mod Amf
pub mod Buffer
pub mod Bytes
pub mod Chunk
pub mod Common
pub mod Ertmp
pub mod Handshake
pub mod Media
pub mod Message
pub mod Session
pub mod Sha256
pub mod Types
