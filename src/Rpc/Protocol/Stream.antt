-- ===== src/Rpc/Protocol/Stream.antt =====
-- core/rpc/server/server.go and core/rpc/client/client.go: how the two read loops cut the byte
-- stream of a connection into frames. A stream is what the peer sends until it closes. The two ways
-- in which `io.ReadFull` comes up short: `eof` between two frames, which the loops do not report,
-- and `unexpected_eof` inside a frame.
pub mod Ends
use fast_server.Base.{
  All, Bytes, List, Option, [], append-nil, append_assoc, arith, drop, drop-append, false,
  if◌then◌else◌, length, length-append, ltb, none, refl, some, suc, take, take-append, zero, ℕ,
  ◌++◌, ◌+◌, ◌-◌, ◌<◌, ◌∷◌, ◌≡◌, ◌≤◌,
}
use fast_server.Rpc.Protocol.{
  Frame, FrameError, Result, decode, decode_header, encode, err, get_frame_size, header,
  header_size, ok,
}
use fast_server.Rpc.Protocol.Wire.{Fits, length-encode}
use fast_server.Rpc.Protocol.RoundTrip.{decode-encode, decode_header-header}

-- Why a read loop ends.
pub data Stop : Type 0 where
  eof unexpected_eof : Stop
  bad : FrameError → Stop

pub data Read : Type 0 where
  got : Frame → Bytes → Read
  stop : Stop → Read

abbrev pub short : Bytes → Stop
short [] = eof
short (x ∷ xs) = unexpected_eof

-- The frame is complete: `io.ReadFull` of its bytes, and `Decode`.
read_body : Bytes → Result ℕ → Read
read_body s (err e) = stop (bad e)
read_body s (ok size) =
    if ltb (length s) size
    then stop unexpected_eof
    else elim (decode (take size s)) [ ok f ↦ got f (drop size s) | err e ↦ stop (bad e) ]

-- One round of `Client.receive`.
pub client_read : Bytes → Read
unfolding read_body
client_read s =
    if ltb (length s) header_size
    then stop (short s)
    else read_body s (get_frame_size (take header_size s))

-- One round of `Server.handleConn`: the header is validated before the body is read.
pub server_read : Bytes → Read
unfolding read_body
server_read s =
    if ltb (length s) header_size
    then stop (short s)
    else elim (decode_header (take header_size s)) [
      | err e ↦ stop (bad e)
      | ok f ↦ read_body s (get_frame_size (take header_size s))
    ]

-- The loop around a round; `none` means that the fuel ran out (`Ends`).
pub read_all : (Bytes → Read) → ℕ → Bytes → List Frame × Option Stop
read_all read zero s = ([], none)
read_all read (suc fuel) s = elim (read s) [
  | stop why ↦ ([], some why)
  | got f rest ↦ let (fs, why) = read_all read fuel rest in (f ∷ fs, why)
]

-- A round takes at most one iteration for each byte that is left, and one to see the end.
pub receive : Bytes → List Frame × Option Stop
receive s = read_all client_read (suc (length s)) s

pub handle_conn : Bytes → List Frame × Option Stop
handle_conn s = read_all server_read (suc (length s)) s

abbrev pub concat : List Frame → Bytes
concat [] = []
concat (f ∷ fs) = encode f ++ concat fs

module _ (f : Frame) (rest : Bytes) (fits : Fits f) where
  take-header : take header_size (encode f ++ rest) ≡ header f ++ []
  unfolding encode
  take-header = refl

  size-header : get_frame_size (header f ++ []) ≡ ok (length (encode f))
  unfolding get_frame_size header
  size-header = rw length-encode (ground (arith, fits.metadata, fits.payload))

  read_body-encode : read_body (encode f ++ rest) (ok (length (encode f))) ≡ got f rest
  unfolding read_body
  read_body-encode = ground (
    arith,
    length-append (encode f) rest,
    take-append (length (encode f)) (encode f) rest refl,
    drop-append (length (encode f)) (encode f) rest refl,
    append-nil (encode f),
    decode-encode f [] fits,
  )

  long_enough : ltb (length (encode f ++ rest)) header_size ≡ false
  long_enough = ground (arith, length-append (encode f) rest, length-encode f)

  pub client_read-encode : client_read (encode f ++ rest) ≡ got f rest
  unfolding client_read
  client_read-encode = rw (long_enough, take-header, size-header) read_body-encode

  pub server_read-encode : server_read (encode f ++ rest) ≡ got f rest
  unfolding server_read
  server_read-encode = ground (
    arith,
    long_enough,
    take-header,
    decode_header-header f [] fits.magic fits.version fits.request_id,
    size-header,
    read_body-encode,
  )

module _ (read : Bytes → Read)
    (step : (f : Frame) (rest : Bytes) → Fits f → read (encode f ++ rest) ≡ got f rest) where
  read_all-concat :
      (fs : List Frame) (rest : Bytes) (fuel : ℕ)
      → All Fits fs
      → read_all read (length fs + fuel) (concat fs ++ rest)
        ≡ (fs ++ (read_all read fuel rest).0, (read_all read fuel rest).1)
  unfolding read_all
  read_all-concat [] rest fuel w = let e : 0 + fuel ≡ fuel = omega arith in rw e
  read_all-concat (f ∷ fs) rest fuel w =
      let e : suc (length fs) + fuel ≡ suc (length fs + fuel) = omega arith in
      rw (e, append_assoc)
        (ground (arith, step f (concat fs ++ rest) w.0, read_all-concat fs rest fuel w.1))

  read_all_stop :
      (fuel : ℕ) (s : Bytes) (why : Stop)
      → read s ≡ stop why
      → read_all read (suc fuel) s ≡ ([], some why)
  unfolding read_all
  read_all_stop fuel s why e = ground arith

  length-le-concat : (fs : List Frame) → length fs ≤ length (concat fs)
  length-le-concat [] = omega arith
  length-le-concat (f ∷ fs) =
      omega (arith, length-append (encode f) (concat fs), length-encode f, length-le-concat fs)

  -- What follows the last whole frame is read with at least one round of fuel.
  read_all_frames :
      (fs : List Frame) (rest : Bytes) (why : Stop)
      → All Fits fs
      → read rest ≡ stop why
      → read_all read (suc (length (concat fs ++ rest))) (concat fs ++ rest) ≡ (fs, some why)
  read_all_frames fs rest why w e =
      let n = length (concat fs ++ rest) in
      let h : suc n ≡ length fs + suc (n - length fs) =
        omega (arith, length-append (concat fs) rest, length-le-concat fs) in
      rw (h, read_all-concat fs rest (suc (n - length fs)) w)
        (rw (read_all_stop (n - length fs) rest why e, append-nil))

-- Frames of this protocol, with metadata and payloads below 2 ^ 16 bytes, that were encoded one after
-- another are read back in order, by the server and by the client; a tail of less than 16 bytes ends
-- the loop, cleanly only if it is empty.
pub handle_conn-concat :
    (fs : List Frame) (tail : Bytes)
    → All Fits fs
    → length tail < header_size
    → (handle_conn (concat fs ++ tail) ≡ (fs, some (short tail)))
      × (receive (concat fs ++ tail) ≡ (fs, some (short tail)))
unfolding handle_conn receive
handle_conn-concat fs tail w h = (
  read_all_frames server_read server_read-encode fs tail (short tail) w
      (unfold server_read in ground arith),
  read_all_frames client_read client_read-encode fs tail (short tail) w
      (unfold client_read in ground arith),
)
