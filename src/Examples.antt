-- ===== src/Examples.antt =====
-- The theorems at concrete inputs, over the byte order and search of `Crates.Native`, and tests.
mod Server
mod Client
mod Quotes
mod Values
mod Login
mod Link
