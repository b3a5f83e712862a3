-- ===== src/WebSocket/Frame/Limit.antt =====
-- core/websocket/conn.go: the size limit of `readFrame`.
use Prim.Native.Nat.{bit_and}
use fast_server.Base.{
  Bytes, Option, [], arith, drop, length, length-take, none, put_u64, refl, some, take, ℕ, ◌++◌,
  ◌<◌, ◌^◌, ◌∷◌, ◌≡◌, ◌≤◌,
}
use fast_server.WebSocket.Frame.{
  Frame, got, header_frame, read_frame, read_length, read_masked, read_payload, read_sized,
}
use fast_server.WebSocket.Frame.RoundTrip.{length-unmask}

read_payload-limit :
    (f : Frame) (n : ℕ) (key s : Bytes) (g : Frame) (rest : Bytes)
    → f.payload ≡ []
    → read_payload f n key s ≡ got g rest
    → length g.payload ≤ n
unfolding read_payload
read_payload-limit f n key s g rest empty e =
    ground (arith, empty, length-take n s, length-unmask key 0 (take n s))

read_payload-negative :
    (f : Frame) (n : ℕ) (key s : Bytes) → 2 ^ 63 ≤ n → read_payload f n key s ≡ got f s
unfolding read_payload
read_payload-negative f n key s h = ground arith

read_masked-limit :
    (f : Frame) (n : ℕ) (s : Bytes) (g : Frame) (rest : Bytes)
    → f.payload ≡ []
    → read_masked f n s ≡ got g rest
    → length g.payload ≤ n
unfolding read_masked
read_masked-limit f n s g rest empty e = ground (
  arith,
  read_payload-limit f n [] s g rest empty,
  read_payload-limit f n (take 4 s) (drop 4 s) g rest empty,
)

-- A length that is negative as an int64 leaves the payload empty.
read_masked-negative :
    (f : Frame) (n : ℕ) (s : Bytes) (g : Frame) (rest : Bytes)
    → f.payload ≡ []
    → 2 ^ 63 ≤ n
    → read_masked f n s ≡ got g rest
    → g.payload ≡ []
unfolding read_masked
read_masked-negative f n s g rest empty h e = ground (
  arith,
  empty,
  read_payload-negative f n [] s h,
  read_payload-negative f n (take 4 s) (drop 4 s) h,
)

read_sized-limit :
    (limit : ℕ) (f : Frame) (s : Bytes) (o : Option (ℕ × Bytes)) (g : Frame) (rest : Bytes)
    → f.payload ≡ []
    → read_sized limit f s o ≡ got g rest
    → length g.payload ≤ limit
unfolding read_sized
read_sized-limit limit f s none g rest empty e = cc
read_sized-limit limit f s (some (n, t)) g rest empty e =
    ground (arith, read_masked-limit f n t g rest empty, read_masked-negative f n t g rest empty)

-- No frame that `readFrame` returns has a payload above the limit.
pub read_frame-limit :
    (limit : ℕ) (s : Bytes) (f : Frame) (rest : Bytes)
    → read_frame limit s ≡ got f rest
    → length f.payload ≤ limit
unfolding read_frame
read_frame-limit limit [] f rest e = cc
read_frame-limit limit (a ∷ []) f rest e = cc
read_frame-limit limit (a ∷ b ∷ s) f rest e =
    read_sized-limit limit (header_frame a b) s (read_length (bit_and b 0x7F) s) f rest refl e

-- An unmasked header that announces 2 ^ 63 bytes or more passes every limit: the frame comes out
-- empty, and what follows is read as the next frame.
pub read_frame-overflow :
    (limit a n : ℕ) (rest : Bytes)
    → 2 ^ 63 ≤ n
    → n < 2 ^ 64
    → read_frame limit (a ∷ 127 ∷ put_u64 n ++ rest) ≡ got (header_frame a 127) rest
unfolding read_frame read_sized read_masked read_length
read_frame-overflow limit a n rest big lt =
    ground (arith, read_payload-negative (header_frame a 127) n [] rest big)
