-- ===== src/Middleware.antt =====
-- core/middleware: the handlers that run before and beside the handler of a route.
pub mod Pipeline
pub mod Order
pub mod Async
pub mod RateLimiter
mod Tests
