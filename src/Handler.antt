-- ===== src/Handler.antt =====
-- internal/handler: the HTTP handlers, their middleware and the rate limiter.
pub mod Probe
pub mod Mask
pub mod Middleware
pub mod Secrets
pub mod Pages
pub mod RateLimit
pub mod Admin
