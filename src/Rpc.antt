-- ===== src/Rpc.antt =====
-- core/rpc: the frames, the streams of frames, the client's table of calls, the services and the
-- server that answers for them.
pub mod Protocol
pub mod Client
pub mod Registry
pub mod Server
