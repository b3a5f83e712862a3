-- ===== src/WebSocket/Frame.antt =====
-- core/websocket/conn.go: `Frame`, the bytes that `WriteFrame` sends, and `readFrame`.
-- A Go `byte` is a number below 256. `readFrame` keeps the length of the payload in an int64, in
-- which a number from 2 ^ 63 on is negative; the size limit is not negative.
mod Bits
pub mod RoundTrip
pub mod Limit
use Prim.Native.Nat.{bit_and, bit_or, bit_xor}
use fast_server.Base.{
  Bool, Bytes, Option, [], drop, get_or, if◌then◌else◌, length, ltb, none, not, put_u16, put_u64,
  some, suc, take, u16_at, u64_at, ℕ, ◌%◌, ◌&&◌, ◌++◌, ◌==◌, ◌^◌, ◌||◌, ◌∷◌,
}

pub record Frame : Type 0 where
  pub fin : Bool
  pub opcode : ℕ
  pub masked : Bool
  pub payload : Bytes

unfoldable pub first_byte : Frame → ℕ
first_byte f = if f.fin then bit_or f.opcode 0x80 else f.opcode

-- The length as `WriteFrame` puts it, in one of three forms.
unfoldable pub put_length : ℕ → Bytes
put_length n =
    if ltb n 126
    then n ∷ []
    else if ltb n 65536
    then 126 ∷ put_u16 (n % 2 ^ 16)
    else 127 ∷ put_u64 (n % 2 ^ 64)

-- What `WriteFrame` puts on the wire: no mask.
unfoldable pub frame_bytes : Frame → Bytes
unfolding first_byte put_length
frame_bytes f = first_byte f ∷ put_length (length f.payload) ++ f.payload

-- What `readFrame` returns: a frame, or a size over the limit, and what is left to read; `short`
-- is an `io.ReadFull` with too few bytes left, which it takes: none for io.EOF.
pub data Read : Type 0 where
  got : Frame → Bytes → Read
  short : Bytes → Read
  too_large : (size limit : ℕ) → Bytes → Read

-- A length that is cut short is `none`.
unfoldable pub read_length : ℕ → Bytes → Option (ℕ × Bytes)
read_length code s =
    if code == 126
    then (if ltb (length s) 2 then none else some (u16_at s 0, drop 2 s))
    else if code == 127
    then (if ltb (length s) 8 then none else some (u64_at s 0, drop 8 s))
    else some (code, s)

-- `payload[i] ^= maskingKey[i%4]` for the bytes from position `i` on.
pub unmask : Bytes → ℕ → Bytes → Bytes
unmask key i [] = []
unmask key i (b ∷ s) = bit_xor b (get_or key (i % 4) 0) ∷ unmask key (suc i) s

abbrev is_negative : ℕ → Bool
is_negative n = not (ltb n (2 ^ 63))

-- The payload behind the mask; a length that is not positive takes no byte.
unfoldable pub read_payload : Frame → ℕ → Bytes → Bytes → Read
unfolding unmask
read_payload f n key s =
    if n == 0 || is_negative n
    then got f s
    else if ltb (length s) n
    then short s
    else got (record f { payload = if f.masked then unmask key 0 (take n s) else take n s })
        (drop n s)

unfoldable pub read_masked : Frame → ℕ → Bytes → Read
unfolding read_payload
read_masked f n s =
    if f.masked
    then (if ltb (length s) 4 then short s else read_payload f n (take 4 s) (drop 4 s))
    else read_payload f n [] s

unfoldable pub read_sized : ℕ → Frame → Bytes → Option (ℕ × Bytes) → Read
unfolding read_masked
read_sized limit f cut none = short cut
read_sized limit f cut (some (n, s)) =
    if not (is_negative n) && ltb limit n then too_large n limit s else read_masked f n s

-- The frame of a header, its payload not yet read.
abbrev pub header_frame : ℕ → ℕ → Frame
header_frame a b = record {
  fin = not (bit_and a 0x80 == 0);
  opcode = bit_and a 0x0F;
  masked = not (bit_and b 0x80 == 0);
  payload = [];
}

unfoldable pub read_frame : ℕ → Bytes → Read
unfolding read_sized read_length
read_frame limit (a ∷ b ∷ s) =
    read_sized limit (header_frame a b) s (read_length (bit_and b 0x7F) s)
read_frame limit s = short s
