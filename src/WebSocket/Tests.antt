-- ===== src/WebSocket/Tests.antt =====
-- core/websocket/conn.go: frames and messages on which the theorems are run.
use fast_server.Base.{
  Bool, Bytes, List, [], arith, false, inl, inr, refl, true, ℕ, ◌*◌, ◌++◌, ◌<◌, ◌∷◌, ◌≡◌,
}
use fast_server.WebSocket.Frame.{Frame, first_byte, frame_bytes, got, put_length, read_frame}
use fast_server.WebSocket.Frame.RoundTrip.{client_frame, read_frame-client_frame}
use fast_server.WebSocket.Conn.{
  join, message, new_conn, op_continuation, op_ping, op_text, read_message,
}
use fast_server.WebSocket.Conn.Messages.{CanSend, pieces, pongs, read_message-sent, sent}

abbrev key : Bytes
key = 1 ∷ 2 ∷ 3 ∷ 4 ∷ []

abbrev part : Bool → ℕ → Frame
part fin opcode = record { fin = fin; opcode = opcode; masked = false; payload = 104 ∷ 105 ∷ [] }

part-CanSend :
    (fin : Bool) (opcode : ℕ) → opcode < 16 → CanSend (1024 * 1024) (key, part fin opcode)
part-CanSend fin opcode h = record {
  key = record { bytes = omega arith; size = refl };
  frame = record { opcode = h; payload = omega arith; size = omega arith; int64 = omega arith };
}

frame_test : frame_bytes (part true op_text) ≡ 0x81 ∷ 2 ∷ 104 ∷ 105 ∷ []
unfolding frame_bytes first_byte put_length
frame_test = refl

read_frame-client_frame_example :
    read_frame (1024 * 1024) (client_frame key (part true op_text) ++ (9 ∷ []))
    ≡ got (record (part true op_text) { masked = true }) (9 ∷ [])
read_frame-client_frame_example =
    read_frame-client_frame (1024 * 1024) (part true op_text)
      (part-CanSend true op_text (omega arith)).frame key (9 ∷ [])
      (part-CanSend true op_text (omega arith)).key

-- "hi" in two fragments, with a ping between them.
abbrev middle : List (Bytes × Frame)
middle = (key, part true op_ping) ∷ []

abbrev stream : Bytes
stream =
    sent ((key, part false op_text) ∷ middle)
    ++ (client_frame key (part true op_continuation) ++ (7 ∷ []))

read_message-sent_example : read_message (new_conn stream) ≡ (
  record (new_conn stream) { incoming = 7 ∷ []; outgoing = [] ++ pongs middle },
  message op_text ((104 ∷ 105 ∷ []) ++ (join (pieces middle) ++ (104 ∷ 105 ∷ []))),
)
read_message-sent_example =
    read_message-sent (new_conn stream) (key, part false op_text) middle
      (key, part true op_continuation) (7 ∷ []) refl
      (
        part-CanSend false op_text (omega arith),
        (
          part-CanSend true op_continuation (omega arith),
          (part-CanSend true op_ping (omega arith), tt),
        ),
      )
      (record { opcode = inl refl; fin = refl }) (inr (inl refl), tt)
      (record { opcode = refl; fin = refl }) refl
