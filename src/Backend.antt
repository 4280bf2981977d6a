-- ===== src/Backend.antt =====
-- opengauss-protocol/src/message/backend.rs: what the client reads from the server.
pub mod Message
pub mod Tag
pub mod Auth
pub mod Parse
pub mod InRange
pub mod Wire
pub mod RoundTrip
pub mod Frame
pub mod Total
pub mod Iter
