-- ===== src/Lib.antt =====
-- The wire protocol of rust-opengauss, a client of PostgreSQL and openGauss: what the client reads
-- from the server and what it sends.
--
-- Paths are from the repository's root; P stands for crates/opengauss-protocol/src.
-- The server's messages come in as a byte stream. `PostgresCodec::decode` cuts it into batches
-- (Codec, crates/tokio-opengauss/src/codec.rs), a batch is read message by message with
-- `Message::parse_with_mode` (Backend, P/message/backend.rs), and a message's body by its iterator
-- (Backend/Iter). The client's messages are appended to a buffer by the functions of
-- P/message/frontend.rs (Frontend), which use the helpers of P/lib.rs (Write); the values in them
-- are those of P/types/mod.rs (Types). Texts that go into SQL are quoted by P/escape/mod.rs (Escape).
--   Backend/Message, Tag: the message types and their tags. Backend/Parse, Auth: `Header::parse`,
--   `Message::parse` and `Message::parse_with_mode`. Backend/Wire: the wire format, as the
--   specification. Backend/InRange, RoundTrip, Frame, Total and Iter/Row, Iter/Lists: proofs.
--   Codec/Encode: `PostgresCodec::encode`. Codec/InRange, Batch, Total, Messages, Async:
--   proofs.
--   Frontend/Request: the client's wire format, as the specification. Frontend/Parts, Sends, Grows:
--   proofs. Write/Laws, Grows: lemmas on the writers.
--   Types/Scalar, Hstore, Array, Range, Geo, Inet: the functions `*_to_sql` and `*_from_sql`, with the
--   iterators over what they read.
--
-- A connection begins with crates/tokio-opengauss/src/connect_raw.rs: start-up message, authentication,
-- parameters; the answers to the server's challenges are those of P/authentication. Then it lives in
-- the task of crates/tokio-opengauss/src/connection.rs, which sends the clients' requests and hands each batch
-- to the request that waits for it.
--   Startup: `StartupStream`, `startup`. Startup/Authenticate: `authenticate`. Startup/Info: `read_info`
--   and `connect_raw`. Startup/Log, Binding, Total, Offers, First, Ready:
--   proofs.
--   Authentication: `md5_hash`. Authentication/Sha256: sha256.rs. Authentication/Sasl, Parser: sasl.rs;
--   Hi, Server: what RFC 5802 defines, and its server, as the specification; Exchange, Sound: proofs.
--   Password: P/password/mod.rs, with its proofs, and a server's reader of
--   what is stored, in Password/Laws. Hex: P/hex.rs.
--   Base64, Bits: characters and bytes that these use.
--   Connection/Parts: the state of `Connection`, and `CopyInReceiver`.
--   Connection/Read, Write, Poll: its polls.
--   Connection/Order: the routing of batches to requests, as the specification. Connection/Requests,
--   Closing, Trace, Progress, Total, Written, Ends, Steps: proofs. Parameters: the map of parameters.
--   DbError: `DbError::parse` of crates/tokio-opengauss/src/error/mod.rs. DbError/Report: an error as a
--   server sends it, as the specification; Fields, RoundTrip: proofs. Attempt: its `Error`. Loop: a loop
--   over a state, with its laws.
--   Crypto: the interface of the hashes, of base64, hex decoding and saslprep, with Crypto/Native as
--   one way to meet it.
--   Crates: the interface of the third-party crates, with Crates/Native as one way to meet it.
--   Slice: indexing, slicing and splitting of buffers, which panic out of range.
--   Prelude, Outcome, Read, Iterate, Utf8: what the parts share. Examples: witnesses and tests.
--
-- Representation. A byte string is a list of numbers; a text is its UTF-8 bytes, in Escape its code
-- points. A signed integer is its two's complement pattern, a float its bit pattern, and `usize`
-- has 64 bits, so that no length here wraps around. A read takes the bytes that remain and gives
-- back those behind what it took; a write takes the whole buffer and gives back the whole buffer. A
-- `?` on an error keeps what was written before it. An `Outcome` is a result, an error with its kind
-- and message, or a panic. An error value wrapped in `BindError` or in a boxed `Error` is the error itself.
-- Subtractions and lengths are checked as in a debug build: an overflow is a panic.
-- A channel or a socket is the list of what its polls will answer, pending at the end of the list, and
-- what goes out is logged; between two polls the lists may change to any others. In connect_raw.rs
-- an `.await` waits, so the end of the server's list is the end of its stream there. The nonce, the
-- system user's name and the end point's hash of the TLS layer are arguments.
-- `decode` loops on fuel, one more than the bytes of the buffer: each round that goes on passes five
-- bytes or more. `poll_read` has one round per unread message and one more, `poll_write` one per
-- answer of the socket and one more, `DbError::parse` one per byte and one more; the loops of connect_raw.rs
-- have one per byte or arrival still to come and one more. Fuel that runs out counts as a panic.
--
-- Not modelled: capacities and `reserve`, which change no content; `size_hint`; accessors that only
-- return a field; the position of a reader after a failed read, which no caller looks at; the
-- checks of `str::from_utf8` are written out in Utf8 from its documentation. The `Future` of
-- `Connection`, which repeats `poll_message`, and `CopyInSink` are left out; so are the
-- `Display` texts of the errors, and the positions and characters that sasl.rs puts into its messages.
-- The random choice of nonces and the socket and TLS set-up stay outside.
-- The rest of the repository is asynchronous input and output, TLS, code generation and conversions for other crates.
pub mod Attempt
pub mod Authentication
pub mod Backend
pub mod Base64
pub mod Bits
pub mod Codec
pub mod Connection
pub mod Crates
pub mod Crypto
pub mod DbError
pub mod Escape
pub mod Examples
pub mod Frontend
pub mod Hex
pub mod Iterate
pub mod Loop
pub mod Outcome
pub mod Parameters
pub mod Password
pub mod Prelude
pub mod Read
pub mod Slice
pub mod Startup
pub mod Types
pub mod Utf8
pub mod Write
