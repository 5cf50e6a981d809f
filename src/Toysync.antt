-- ===== src/Toysync.antt =====
-- origin-toysync/src: the thread pool server and its cache of the `Date` header.
pub mod Date
pub mod Pool
pub mod Connection
pub mod Server
