-- ===== src/Connection.antt =====
-- tokio-opengauss/src/connection.rs: the task that drives a connection, one poll at a time. A poll works on
-- the state of Connection/Parts; `cx` only registers wakers. `async` messages other than three kinds
-- panic, as `unreachable!()` does.
pub mod Parts
pub mod Read
pub mod Write
pub mod Poll
pub mod Order
pub mod Steps
pub mod Requests
pub mod Closing
pub mod Total
pub mod Written
pub mod Ends
pub mod Trace
pub mod Progress
