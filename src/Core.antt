-- ===== src/Core.antt =====
-- Limits under core/: the rate limiter and the connection manager.
pub mod RateLimiter
pub mod RateLimits
mod Tests
pub mod ConnectionManager
pub mod ConnectionLimits
pub mod OpenConnections
mod TlsEnforcement
mod TlsLaws
