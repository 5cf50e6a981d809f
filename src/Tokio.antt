-- ===== src/Tokio.antt =====
-- origin-tokio/src/main.rs: the codec, the loop over one connection, and the accept loop.
pub mod Date
pub mod Encode
pub mod Decode
pub mod Process
pub mod Threads
