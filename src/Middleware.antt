-- ===== src/Middleware.antt =====
-- internal/middleware: rate limiting and backpressure.
pub mod RateLimit
pub mod Limiter
