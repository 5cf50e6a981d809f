-- ===== src/Proxies.antt =====
-- The proxies that stand before an origin server, over what their frameworks offer.
pub mod Actix
pub mod Hyper
pub mod Pingora
pub mod Agree
mod Tests
