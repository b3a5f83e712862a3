-- ===== src/Observability.antt =====
-- core/observability: the measurements of the handlers.
pub mod Monitor
