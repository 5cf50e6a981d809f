-- ===== src/Origins.antt =====
-- The origin servers that stand on a framework: actix, hyper, ntex and pingora.
pub mod Handlers
pub mod Pingora
pub mod Alike
mod Tests
