-- ===== src/WebSocket/Conn/Close.antt =====
-- core/websocket/conn.go: `Close`, and every operation after it.
use fast_server.Base.{arith, some, ◌≡◌}
use fast_server.WebSocket.Frame.{Frame}
use fast_server.WebSocket.Conn.{Conn, close, eof, failed, read_message, write_frame}

-- Closing sends nothing to the peer, not even the close frame, since the connection counts as closed
-- by the time it is written; closing again changes nothing; and a closed connection answers every
-- read and write with io.EOF and stays as it is.
pub close-silent :
    (c : Conn) (f : Frame)
    → ((close c).outgoing ≡ c.outgoing)
      × (close (close c) ≡ close c)
      × (write_frame f (close c) ≡ (close c, some eof))
      × (read_message (close c) ≡ (close c, failed eof))
unfolding close write_frame read_message
close-silent c f = ground arith
