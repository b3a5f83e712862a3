-- ===== src/WebSocket/Conn.antt =====
-- core/websocket/conn.go: `Conn`, by one goroutine. `incoming` is what the peer sends until it
-- closes and `outgoing` what was flushed to it; writing to the network succeeds.
pub mod Messages
pub mod Close
pub mod Ends
use fast_server.Base.{
  Bool, Bytes, List, Option, [], false, if◌then◌else◌, length, none, set, some, suc, true, zero, ℕ,
  ◌*◌, ◌++◌, ◌==◌, ◌||◌, ◌∷◌,
}
use fast_server.WebSocket.Frame.{Frame, Read, frame_bytes, got, read_frame, short, too_large}

pub record Conn : Type 0 where
  pub incoming : Bytes
  pub outgoing : Bytes
  pub max_message_size : ℕ
  -- `closed`, which is set in `closeOnce` and so tells whether that has run
  pub closed : Bool
  -- whether the network connection was closed
  pub shut : Bool

pub data Error : Type 0 where
  eof unexpected_eof : Error
  message_too_large : (size limit : ℕ) → Error
  unknown_opcode : ℕ → Error

abbrev pub op_continuation : ℕ
op_continuation = 0x0

abbrev pub op_text : ℕ
op_text = 0x1

abbrev pub op_binary : ℕ
op_binary = 0x2

abbrev pub op_close : ℕ
op_close = 0x8

abbrev pub op_ping : ℕ
op_ping = 0x9

abbrev pub op_pong : ℕ
op_pong = 0xA

-- `NewConn`
abbrev pub new_conn : Bytes → Conn
new_conn incoming = record {
  incoming = incoming;
  outgoing = [];
  max_message_size = 1024 * 1024;
  closed = false;
  shut = false;
}

-- `WriteFrame`: the connection and the error, if there is one.
pub write_frame : Frame → Conn → Conn × Option Error
write_frame f c =
    if c.closed then (c, some eof) else (record c { outgoing = c.outgoing ++ frame_bytes f }, none)

abbrev plain : ℕ → Bytes → Frame
plain opcode payload = record { fin = true; opcode = opcode; masked = false; payload = payload }

pub write_message : ℕ → Bytes → Conn → Conn × Option Error
write_message opcode payload c = write_frame (plain opcode payload) c

pub ping : Conn → Conn × Option Error
ping c = write_frame (plain op_ping []) c

-- `Close`: the flag is set before the close frame is written.
unfoldable pub close : Conn → Conn
unfolding write_frame
close c =
    if c.closed
    then c
    else record (write_frame (plain op_close []) (record c { closed = true })).0 { shut = true }

pub data Answer : Type 0 where
  message : (opcode : ℕ) (payload : Bytes) → Answer
  failed : Error → Answer
  -- the fuel ran out
  unfinished : Answer

-- One round of `ReadMessage`: the loop goes on with an opcode and fragments, or returns.
pub data Round : Type 0 where
  again : Conn → (opcode : ℕ) → (fragments : List Bytes) → Round
  return : Conn → Answer → Round

abbrev pub join : List Bytes → Bytes
join [] = []
join (s ∷ ss) = s ++ join ss

abbrev after_pong : ℕ → List Bytes → Conn × Option Error → Round
after_pong op fragments (c, none) = again c op fragments
after_pong op fragments (c, some e) = return c (failed e)

-- The switch on the opcode of a frame.
pub on_frame : Conn → ℕ → List Bytes → Frame → Round
unfolding write_frame close
on_frame c op fragments f =
    if f.opcode == op_text || f.opcode == op_binary
    then (if f.fin
        then return c (message f.opcode f.payload)
        else again c f.opcode (fragments ++ (f.payload ∷ [])))
    else if f.opcode == op_continuation
    then (if f.fin
        then return c (message op (join (fragments ++ (f.payload ∷ []))))
        else again c op (fragments ++ (f.payload ∷ [])))
    else if f.opcode == op_ping
    then after_pong op fragments (write_frame (plain op_pong f.payload) c)
    else if f.opcode == op_pong
    then again c op fragments
    else if f.opcode == op_close
    then return (close c) (failed eof)
    else return c (failed (unknown_opcode f.opcode))

-- The error of `io.ReadFull`, by what was left to read; nothing is left after it.
abbrev short_error : Bytes → Error
short_error [] = eof
short_error (b ∷ s) = unexpected_eof

-- What a round does with the outcome of `readFrame`.
on_read : Conn → ℕ → List Bytes → Read → Round
unfolding on_frame
on_read c op fragments (got f rest) = on_frame (record c { incoming = rest }) op fragments f
on_read c op fragments (short left) =
    return (record c { incoming = [] }) (failed (short_error left))
on_read c op fragments (too_large n limit rest) =
    return (record c { incoming = rest }) (failed (message_too_large n limit))

pub round : Conn → ℕ → List Bytes → Round
unfolding on_read
round c op fragments = on_read c op fragments (read_frame c.max_message_size c.incoming)

-- The loop, on fuel.
pub rounds : ℕ → Conn → ℕ → List Bytes → Conn × Answer
rounds zero c op fragments = (c, unfinished)
rounds (suc fuel) c op fragments = elim (round c op fragments) [
  | again d op' fragments' ↦ rounds fuel d op' fragments'
  | return d answer ↦ (d, answer)
]

-- `ReadMessage`: each round takes at least two bytes.
pub read_message : Conn → Conn × Answer
read_message c = if c.closed then (c, failed eof) else rounds (suc (length c.incoming)) c 0 []
