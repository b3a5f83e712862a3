-- ===== src/WebSocket.antt =====
-- core/websocket: the frames of a connection and its messages.
pub mod Frame
pub mod Conn
mod Tests
pub mod Hub
