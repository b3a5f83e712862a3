-- ===== src/WebSocket/Conn/Ends.antt =====
-- core/websocket/conn.go: `ReadMessage` returns on input that ends.
use Prim.Native.Nat.{bit_and}
use fast_server.Base.{
  Bytes, List, Option, [], arith, drop, inl, inr, length, length-drop, none, refl, some, suc, take,
  zero, ℕ, ◌<◌, ◌∷◌, ◌≡◌, ◌≢◌, ◌≤◌, ◌⊎◌,
}
use fast_server.WebSocket.Frame.{
  Frame, Read, got, header_frame, read_frame, read_length, read_masked, read_payload, read_sized,
  short, too_large,
}
use fast_server.WebSocket.Conn.{
  Answer, Conn, Round, again, on_frame, on_read, read_message, return, round, rounds, unfinished,
  write_frame,
}

read_payload-le :
    (f : Frame) (n : ℕ) (key s : Bytes) (g : Frame) (rest : Bytes)
    → read_payload f n key s ≡ got g rest
    → length rest ≤ length s
unfolding read_payload
read_payload-le f n key s g rest e = ground (arith, length-drop n s)

read_masked-le :
    (f : Frame) (n : ℕ) (s : Bytes) (g : Frame) (rest : Bytes)
    → read_masked f n s ≡ got g rest
    → length rest ≤ length s
unfolding read_masked
read_masked-le f n s g rest e = ground (
  arith,
  read_payload-le f n [] s g rest,
  read_payload-le f n (take 4 s) (drop 4 s) g rest,
  length-drop 4 s,
)

read_length-le :
    (c : ℕ) (s : Bytes) (n : ℕ) (t : Bytes) → read_length c s ≡ some (n, t) → length t ≤ length s
unfolding read_length
read_length-le c s n t e = ground (arith, length-drop 2 s, length-drop 8 s)

read_sized-le :
    (limit : ℕ) (f : Frame) (s : Bytes) (o : Option (ℕ × Bytes)) (g : Frame) (rest : Bytes)
    → ((n : ℕ) (t : Bytes) → o ≡ some (n, t) → length t ≤ length s)
    → read_sized limit f s o ≡ got g rest
    → length rest ≤ length s
unfolding read_sized
read_sized-le limit f s none g rest le e = cc
read_sized-le limit f s (some (n, t)) g rest le e =
    ground (arith, le n t refl, read_masked-le f n t g rest)

-- A frame takes at least its header.
read_frame-lt :
    (limit : ℕ) (s : Bytes) (f : Frame) (rest : Bytes)
    → read_frame limit s ≡ got f rest
    → length rest < length s
unfolding read_frame
read_frame-lt limit [] f rest e = cc
read_frame-lt limit (a ∷ []) f rest e = cc
read_frame-lt limit (a ∷ b ∷ s) f rest e =
    let le =
      read_sized-le limit (header_frame a b) s (read_length (bit_and b 0x7F) s) f rest
        (read_length-le (bit_and b 0x7F) s) e in
    omega (arith, le)

on_frame-incoming :
    (c : Conn) (op : ℕ) (fragments : List Bytes) (f : Frame) (d : Conn) (op' : ℕ)
    (fragments' : List Bytes)
    → on_frame c op fragments f ≡ again d op' fragments'
    → d.incoming ≡ c.incoming
unfolding on_frame write_frame
on_frame-incoming c op fragments f d op' fragments' e = ground arith

on_read-lt :
    (c : Conn) (op : ℕ) (fragments : List Bytes) (r : Read) (d : Conn) (op' : ℕ)
    (fragments' : List Bytes)
    → ((f : Frame) (rest : Bytes) → r ≡ got f rest → length rest < length c.incoming)
    → on_read c op fragments r ≡ again d op' fragments'
    → length d.incoming < length c.incoming
unfolding on_read
on_read-lt c op fragments (got f rest) d op' fragments' lt e =
    let same = on_frame-incoming (record c { incoming = rest }) op fragments f d op' fragments' e in
    rw same (lt f rest refl)
on_read-lt c op fragments (short left) d op' fragments' lt e = cc
on_read-lt c op fragments (too_large n limit rest) d op' fragments' lt e = cc

round-lt :
    (c : Conn) (op : ℕ) (fragments : List Bytes) (d : Conn) (op' : ℕ) (fragments' : List Bytes)
    → round c op fragments ≡ again d op' fragments'
    → length d.incoming < length c.incoming
unfolding round
round-lt c op fragments d op' fragments' e =
    on_read-lt c op fragments (read_frame c.max_message_size c.incoming) d op' fragments'
      (λ f rest. read_frame-lt c.max_message_size c.incoming f rest) e

Round-cases :
    (r : Round)
    → ((d : Conn) × (op : ℕ) × (fragments : List Bytes) × (r ≡ again d op fragments))
      ⊎ ((d : Conn) × (a : Answer) × (r ≡ return d a))
Round-cases (again d op fragments) = inl (d, op, fragments, refl)
Round-cases (return d a) = inr (d, a, refl)

-- No round gives up.
on_frame-answer :
    (c : Conn) (op : ℕ) (fragments : List Bytes) (f : Frame) (d : Conn)
    → on_frame c op fragments f ≢ return d unfinished
unfolding on_frame write_frame
on_frame-answer c op fragments f d = ground arith

on_read-answer :
    (c : Conn) (op : ℕ) (fragments : List Bytes) (r : Read) (d : Conn)
    → on_read c op fragments r ≢ return d unfinished
unfolding on_read
on_read-answer c op fragments (got f rest) d =
    on_frame-answer (record c { incoming = rest }) op fragments f d
on_read-answer c op fragments (short left) d = ground arith
on_read-answer c op fragments (too_large n limit rest) d = ground arith

round-answer :
    (c : Conn) (op : ℕ) (fragments : List Bytes) (d : Conn)
    → round c op fragments ≢ return d unfinished
unfolding round
round-answer c op fragments d =
    on_read-answer c op fragments (read_frame c.max_message_size c.incoming) d

rounds-answer :
    (fuel : ℕ) (c : Conn) (op : ℕ) (fragments : List Bytes)
    → length c.incoming < fuel
    → (rounds fuel c op fragments).1 ≢ unfinished
unfolding rounds
rounds-answer zero c op fragments h = absurd (omega arith)
rounds-answer (suc fuel) c op fragments h = elim (Round-cases (round c op fragments)) [
  | inl (d, op', fragments', e) ↦ ground (
    arith,
    e,
    rounds-answer fuel d op' fragments' (omega (arith, round-lt c op fragments d op' fragments' e)),
  )
  | inr (d, a, e) ↦ ground (arith, e, round-answer c op fragments d)
]

-- On input that ends `ReadMessage` returns: the rounds that the model allows are enough, and a
-- message or an error comes back.
pub read_message-answer : (c : Conn) → (read_message c).1 ≢ unfinished
unfolding read_message
read_message-answer c = ground (arith, rounds-answer (suc (length c.incoming)) c 0 [] (omega arith))
