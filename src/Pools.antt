-- ===== src/Pools.antt =====
-- core/pools: the worker pool and the pools of buffers.
pub mod Workers
pub mod BytePool
