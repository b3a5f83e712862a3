-- ===== src/Http.antt =====
-- core/http: requests, the request parser and the response context.
pub mod Request
pub mod Parser
pub mod Context
pub mod Pipelining
pub mod Standard
