-- ===== src/Rpc/Protocol.antt =====
-- core/rpc/protocol/frame.go: the RPC frame, its encoding and its decoding.
-- A Go `byte` is a number below 256 and a `uint32` one below 2 ^ 32 (`IsWire`).
pub mod Wire
pub mod Errors
pub mod RoundTrip
pub mod Stream
mod Tests
use fast_server.Base.{
  ℕ, ◌+◌, ◌*◌, ◌/◌, ◌%◌, ◌^◌, ◌<◌, ◌≡◌, List, [], ◌∷◌, ◌++◌, Bytes, length, take, drop, get_or, ltb,
  ◌==◌, if◌then◌else◌, put_u16, put_u32, u16_at, u32_at, Bool, not,
}
use Prim.Native.Nat.{bit_and, bit_or}

abbrev pub magic_number : ℕ
magic_number = 0x52504300

abbrev pub protocol_version : ℕ
protocol_version = 1

abbrev pub header_size : ℕ
header_size = 16

pub record Frame : Type 0 where
  pub magic : ℕ
  pub version : ℕ
  pub kind : ℕ
  pub flags : ℕ
  pub reserved : ℕ
  pub request_id : ℕ
  pub metadata : Bytes
  pub payload : Bytes

-- `DecodeHeader` and `Decode` report the two sizes of a short buffer.
pub data FrameError : Type 0 where
  too_small : (need got : ℕ) → FrameError
  invalid_magic invalid_version no_header : FrameError

pub data Result {ℓ} (A : Type ℓ) : Type ℓ where
  ok : A → Result A
  err : FrameError → Result A

infixl 5 ◌>>=◌
abbrev pub ◌>>=◌ {ℓ κ} : {A : Type ℓ} {B : Type κ} → Result A → (A → Result B) → Result B
ok a >>= f = f a
err e >>= f = err e

unfoldable pub new_frame : ℕ → ℕ → Frame
new_frame kind request_id = record {
  magic = magic_number;
  version = protocol_version;
  kind = kind;
  flags = 0;
  reserved = 0;
  request_id = request_id;
  metadata = [];
  payload = [];
}

pub set_flag : Frame → ℕ → Frame
set_flag f flag = record f { flags = bit_or f.flags flag }

pub has_flag : Frame → ℕ → Bool
has_flag f flag = not (bit_and f.flags flag == 0)

-- The 16 bytes that precede the metadata; the two lengths are cut to 16 bits.
unfoldable pub header : Frame → Bytes
header f =
    put_u32 f.magic
    ++ (f.version ∷ f.kind ∷ f.flags ∷ f.reserved ∷ put_u32 f.request_id
        ++ (put_u16 (length f.metadata % 2 ^ 16) ++ put_u16 (length f.payload % 2 ^ 16)))

pub encode : Frame → Bytes
unfolding header
encode f = header f ++ (f.metadata ++ f.payload)

-- The frame that `DecodeHeader` fills in before it validates.
abbrev header_fields : Bytes → Frame
header_fields buf = record {
  magic = u32_at buf 0;
  version = get_or buf 4 0;
  kind = get_or buf 5 0;
  flags = get_or buf 6 0;
  reserved = get_or buf 7 0;
  request_id = u32_at buf 8;
  metadata = [];
  payload = [];
}

pub decode_header : Bytes → Result Frame
decode_header buf =
    if ltb (length buf) header_size
    then err (too_small header_size (length buf))
    else if not (u32_at buf 0 == magic_number)
    then err invalid_magic
    else if not (get_or buf 4 0 == protocol_version)
    then err invalid_version
    else ok (header_fields buf)

pub frame_size : ℕ → ℕ → ℕ
frame_size meta_len payload_len = header_size + meta_len + payload_len

pub get_frame_size : Bytes → Result ℕ
unfolding frame_size
get_frame_size header_buf =
    if ltb (length header_buf) header_size
    then err no_header
    else ok (frame_size (u16_at header_buf 12) (u16_at header_buf 14))

-- The body, once the header is known to be good.
abbrev body : Bytes → Frame → Result Frame
body buf f =
    let meta_len = u16_at buf 12 in
    let payload_len = u16_at buf 14 in
    if ltb (length buf) (header_size + meta_len + payload_len)
    then err (too_small (header_size + meta_len + payload_len) (length buf))
    else ok (record f {
      metadata = take meta_len (drop header_size buf);
      payload = take payload_len (drop (header_size + meta_len) buf);
    })

pub decode : Bytes → Result Frame
unfolding decode_header
decode buf =
    if ltb (length buf) header_size
    then err (too_small header_size (length buf))
    else do f ← decode_header buf; body buf f
