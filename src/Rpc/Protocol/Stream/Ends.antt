-- ===== src/Rpc/Protocol/Stream/Ends.antt =====
-- core/rpc/server/server.go and core/rpc/client/client.go: the read loops end.
use fast_server.Base.{
  Bytes, arith, inl, inr, length, length-drop, none, refl, suc, take, zero, ℕ, ◌<◌, ◌≡◌, ◌≢◌, ◌≤◌,
  ◌⊎◌,
}
use fast_server.Rpc.Protocol.{Frame, Result, err, get_frame_size, header_size, ok}
use fast_server.Rpc.Protocol.Stream.{
  Read, Stop, client_read, got, handle_conn, read_all, read_body, receive, server_read, stop,
}

-- Each frame that a round returns is longer than its header.
abbrev Shrinks : (Bytes → Read) → Type 0
Shrinks read = (s : Bytes) (f : Frame) (rest : Bytes) → read s ≡ got f rest → length rest < length s

read_body-shrinks :
    (s : Bytes) (size : ℕ) (f : Frame) (rest : Bytes)
    → header_size ≤ size
    → read_body s (ok size) ≡ got f rest
    → length rest < length s
unfolding read_body
read_body-shrinks s size f rest big e = ground (arith, length-drop size s)

size-ge-header : (s : Bytes) (size : ℕ) → get_frame_size s ≡ ok size → header_size ≤ size
unfolding get_frame_size
size-ge-header s size e = ground arith

sized-shrinks :
    (s : Bytes) (r : Result ℕ) (f : Frame) (rest : Bytes)
    → ((size : ℕ) → r ≡ ok size → header_size ≤ size)
    → read_body s r ≡ got f rest
    → length rest < length s
sized-shrinks s (ok size) f rest big e = read_body-shrinks s size f rest (big size refl) e
sized-shrinks s (err x) f rest big e = unfold read_body in cc

client_read-Shrinks : Shrinks client_read
unfolding client_read
client_read-Shrinks s f rest e =
    sized-shrinks s (get_frame_size (take header_size s)) f rest
      (size-ge-header (take header_size s)) (ground arith)

server_read-Shrinks : Shrinks server_read
unfolding server_read
server_read-Shrinks s f rest e =
    sized-shrinks s (get_frame_size (take header_size s)) f rest
      (size-ge-header (take header_size s)) (ground arith)

Read-cases :
    (r : Read) → ((why : Stop) × (r ≡ stop why)) ⊎ ((f : Frame) × (rest : Bytes) × (r ≡ got f rest))
Read-cases (stop why) = inl (why, refl)
Read-cases (got f rest) = inr (f, rest, refl)

read_all_ends :
    (read : Bytes → Read) (fuel : ℕ) (s : Bytes)
    → Shrinks read
    → length s < fuel
    → (read_all read fuel s).1 ≢ none
unfolding read_all
read_all_ends read zero s sh h = absurd (omega arith)
read_all_ends read (suc fuel) s sh h = elim (Read-cases (read s)) [
  | inl (why, e) ↦ ground (arith, e)
  | inr (f, rest, e) ↦
      ground (arith, e, read_all_ends read fuel rest sh (omega (arith, sh s f rest e)))
]

-- Both read loops end on every stream: the rounds that `handle_conn` and `receive` allow are enough.
pub read_all_total : (s : Bytes) → ((handle_conn s).1 ≢ none) × ((receive s).1 ≢ none)
unfolding handle_conn receive
read_all_total s = (
  read_all_ends server_read (suc (length s)) s server_read-Shrinks (omega arith),
  read_all_ends client_read (suc (length s)) s client_read-Shrinks (omega arith),
)
