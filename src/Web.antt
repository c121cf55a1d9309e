-- ===== src/Web.antt =====
-- The web layer.
pub mod Auth
pub mod Prefix
pub mod RateLimit
pub mod Replace
pub mod Stack
