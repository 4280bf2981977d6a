-- ===== src/Types.antt =====
-- opengauss-protocol/src/types/mod.rs: values in the server's binary format.
pub mod Scalar
pub mod Hstore
pub mod Geo
pub mod Range
pub mod Array
pub mod Inet
