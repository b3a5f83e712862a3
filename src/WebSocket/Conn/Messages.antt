-- ===== src/WebSocket/Conn/Messages.antt =====
-- core/websocket/conn.go: `ReadMessage` on the frames of a client.
use fast_server.Base.{
  All, Bytes, List, [], ap, append-nil, append_assoc, arith, false, if◌then◌else◌, length,
  length-append, refl, suc, true, zero, ℕ, ◌++◌, ◌<◌, ◌==◌, ◌∙◌, ◌∷◌, ◌≡◌, ◌≤◌, ◌⊎◌,
}
use fast_server.WebSocket.Frame.{Frame, frame_bytes}
use fast_server.WebSocket.Frame.RoundTrip.{Fits, IsKey, client_frame, read_frame-client_frame}
use fast_server.WebSocket.Conn.{
  Conn, again, join, message, on_frame, op_binary, op_continuation, op_ping, op_pong, op_text,
  plain, read_message, return, round, rounds, write_frame,
}

-- Frames with the keys under which a client sends them.
abbrev pub sent : List (Bytes × Frame) → Bytes
sent [] = []
sent ((key, f) ∷ fs) = client_frame key f ++ sent fs

pub record CanSend (limit : ℕ) (s : Bytes × Frame) : Type 0 where
  pub key : IsKey s.0
  pub frame : Fits limit s.1

-- The first frame of a message that has more than one.
pub record IsFirst (f : Frame) : Type 0 where
  pub opcode : (f.opcode ≡ op_text) ⊎ (f.opcode ≡ op_binary)
  pub fin : f.fin ≡ false

-- Between the first and the last: a fragment, a ping or a pong.
abbrev pub IsMiddle : Frame → Type 0
IsMiddle f =
    ((f.opcode ≡ op_continuation) × (f.fin ≡ false)) ⊎ (f.opcode ≡ op_ping) ⊎ (f.opcode ≡ op_pong)

pub record IsLast (f : Frame) : Type 0 where
  pub opcode : f.opcode ≡ op_continuation
  pub fin : f.fin ≡ true

-- What the frames in the middle add to the message, and what the server answers to them.
abbrev pub pieces : List (Bytes × Frame) → List Bytes
pieces [] = []
pieces ((key, f) ∷ fs) = if f.opcode == op_continuation then f.payload ∷ pieces fs else pieces fs

abbrev pub pongs : List (Bytes × Frame) → Bytes
pongs [] = []
pongs ((key, f) ∷ fs) =
    if f.opcode == op_ping then frame_bytes (plain op_pong f.payload) ++ pongs fs else pongs fs

round-client_frame :
    (c : Conn) (op : ℕ) (fragments : List Bytes) (s : Bytes × Frame) (rest : Bytes)
    → CanSend c.max_message_size s
    → c.incoming ≡ client_frame s.0 s.1 ++ rest
    → round c op fragments
      ≡ on_frame (record c { incoming = rest }) op fragments (record s.1 { masked = true })
unfolding round
round-client_frame c op fragments s rest w e =
    ground (arith, e, read_frame-client_frame c.max_message_size s.1 w.frame s.0 rest w.key)

-- One frame of the middle.
on_frame-middle :
    (c : Conn) (op : ℕ) (fragments : List Bytes) (key : Bytes) (f : Frame)
    → c.closed ≡ false
    → IsMiddle f
    → on_frame c op fragments (record f { masked = true })
      ≡ again
          (record c { outgoing = c.outgoing ++ pongs ((key, f) ∷ []) })
          op
          (fragments ++ pieces ((key, f) ∷ []))
unfolding on_frame write_frame
on_frame-middle c op fragments key f open' w = ground (
  arith,
  append-nil c.outgoing,
  append-nil fragments,
  append-nil (frame_bytes (plain op_pong f.payload)),
)

pongs_cons :
    (s : Bytes × Frame) (fs : List (Bytes × Frame)) → pongs (s ∷ fs) ≡ pongs (s ∷ []) ++ pongs fs
pongs_cons s fs = ground (arith, append-nil (frame_bytes (plain op_pong s.1.payload)))

pieces_cons :
    (s : Bytes × Frame) (fs : List (Bytes × Frame)) → pieces (s ∷ fs) ≡ pieces (s ∷ []) ++ pieces fs
pieces_cons s fs = ground arith

on_frame-last :
    (c : Conn) (op : ℕ) (fragments : List Bytes) (f : Frame)
    → IsLast f
    → on_frame c op fragments (record f { masked = true })
      ≡ return c (message op (join (fragments ++ (f.payload ∷ []))))
unfolding on_frame
on_frame-last c op fragments f w = ground (arith, w.opcode, w.fin)

module _ (op : ℕ) (last : Bytes × Frame) (rest : Bytes) (w : IsLast last.1) where
  -- The loop from the frames in the middle on.
  rounds-middle :
      (fuel : ℕ) (c : Conn) (fragments : List Bytes) (middle : List (Bytes × Frame))
      → length middle < fuel
      → c.closed ≡ false
      → CanSend c.max_message_size last
      → All (CanSend c.max_message_size) middle
      → All (λ s. IsMiddle s.1) middle
      → c.incoming ≡ sent middle ++ (client_frame last.0 last.1 ++ rest)
      → rounds fuel c op fragments ≡ (
        record c { incoming = rest; outgoing = c.outgoing ++ pongs middle },
        message op (join (fragments ++ (pieces middle ++ (last.1.payload ∷ [])))),
      )
  unfolding rounds
  rounds-middle zero c fragments middle h open' can cans mid e = absurd (omega arith)
  rounds-middle (suc fuel) c fragments [] h open' can cans mid e = ground (
    arith,
    append-nil c.outgoing,
    round-client_frame c op fragments last rest can e,
    on_frame-last (record c { incoming = rest }) op fragments last.1 w,
  )
  rounds-middle (suc fuel) c fragments (s ∷ middle) h open' can cans mid e =
      let left = sent middle ++ (client_frame last.0 last.1 ++ rest) in
      let d = record c { incoming = left; outgoing = c.outgoing ++ pongs (s ∷ []) } in
      ground (
        arith,
        round-client_frame c op fragments s left cans.0 (
            e
            ∙ append_assoc (client_frame s.0 s.1) (sent middle)
                (client_frame last.0 last.1 ++ rest)),
        on_frame-middle (record c { incoming = left }) op fragments s.0 s.1 open' mid.0,
        rounds-middle fuel d (fragments ++ pieces (s ∷ [])) middle (omega arith) open' can cans.1
            mid.1 refl,
        pongs_cons s middle,
        pieces_cons s middle,
        append_assoc c.outgoing (pongs (s ∷ [])) (pongs middle),
        append_assoc fragments (pieces (s ∷ [])) (pieces middle ++ (last.1.payload ∷ [])),
        append_assoc (pieces (s ∷ [])) (pieces middle) (last.1.payload ∷ []),
      )

on_frame-first :
    (c : Conn) (op : ℕ) (f : Frame)
    → IsFirst f
    → on_frame c op [] (record f { masked = true }) ≡ again c f.opcode (f.payload ∷ [])
unfolding on_frame
on_frame-first c op f w = ground (arith, w.opcode, w.fin)

length-client_frame : (key : Bytes) (f : Frame) → 1 ≤ length (client_frame key f)
unfolding client_frame
length-client_frame key f = omega arith

length-le-sent : (fs : List (Bytes × Frame)) → length fs ≤ length (sent fs)
length-le-sent [] = omega arith
length-le-sent ((key, f) ∷ fs) = omega (
  arith,
  length-client_frame key f,
  length-append (client_frame key f) (sent fs),
  length-le-sent fs,
)

join-append_one : (ss : List Bytes) (s : Bytes) → join (ss ++ (s ∷ [])) ≡ join ss ++ s
join-append_one [] s = append-nil s
join-append_one (r ∷ ss) s = rw (join-append_one ss s, append_assoc)

-- A text or binary message that a client sends in fragments, under any keys, with pings and pongs
-- between them and each frame within the size limit, on a connection that is not closed, arrives
-- whole and with the opcode of its first frame; each ping is answered by a pong with its
-- payload, in order, and what follows the last fragment is left to read.
pub read_message-sent :
    (c : Conn) (first : Bytes × Frame) (middle : List (Bytes × Frame)) (last : Bytes × Frame)
    (rest : Bytes)
    → c.closed ≡ false
    → All (CanSend c.max_message_size) (first ∷ last ∷ middle)
    → IsFirst first.1
    → All (λ s. IsMiddle s.1) middle
    → IsLast last.1
    → c.incoming ≡ sent (first ∷ middle) ++ (client_frame last.0 last.1 ++ rest)
    → read_message c ≡ (
      record c { incoming = rest; outgoing = c.outgoing ++ pongs middle },
      message first.1.opcode (first.1.payload ++ (join (pieces middle) ++ last.1.payload)),
    )
unfolding read_message rounds
read_message-sent c first middle last rest open' cans one mid end' e =
    let tail = client_frame last.0 last.1 ++ rest in
    let left = sent middle ++ tail in
    let long : length middle < length c.incoming = omega (
      arith,
      ap length e,
      length-append (sent (first ∷ middle)) tail,
      length-append (client_frame first.0 first.1) (sent middle),
      length-client_frame first.0 first.1,
      length-le-sent middle,
    ) in
    ground (
      arith,
      round-client_frame c 0 [] first left cans.0
          (e ∙ append_assoc (client_frame first.0 first.1) (sent middle) tail),
      on_frame-first (record c { incoming = left }) 0 first.1 one,
      rounds-middle first.1.opcode last rest end' (length c.incoming) (record c { incoming = left })
          (first.1.payload ∷ []) middle long open' cans.1.0 cans.1.1 mid refl,
      join-append_one (pieces middle) last.1.payload,
    )
