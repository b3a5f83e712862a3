-- ===== src/Sse.antt =====
-- core/sse: server-sent events.
pub mod Event
pub mod Broker
pub mod Handler
